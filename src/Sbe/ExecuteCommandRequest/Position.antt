-- ===== src/Sbe/ExecuteCommandRequest/Position.antt =====
-- ExecuteCommandRequest.Decode does not read Position, which Encode writes.
use zbc_go.Common.{ℕ, ◌≡◌, refl, sym, ap, ◌∙◌, Bool, false, [], ◌++◌, append_assoc, All}
use zbc_go.Wire.{Bytes, IsByte, ok, ByteOrder}
use zbc_go.Wire.Prefixes.{uint_bytes_cancel, ok-injective}
use zbc_go.Sbe.Field.Streams.{extension-same}
use zbc_go.Sbe.ExecuteCommandRequest.{ExecuteCommandRequest, message_spec, encode, decode}
use zbc_go.Sbe.ExecuteCommandRequest.Laws.{Fits, layout, read_layout, encode-Writes, decode-Takes}

module _ (e old d : ExecuteCommandRequest) (order : ByteOrder) (block : ℕ) (b : Bool) where
  -- Where Decode accepts what Encode wrote without range checks of a message whose fields fit, the
  -- decoded Key is the Position of the message, and the decoded Position is what the receiver held.
  pub ExecuteCommandRequest-decode-encode :
      (bs rest left : Bytes)
      → Fits e
      → encode e order false [] ≡ ok (tt, bs)
      → All IsByte (bs ++ rest)
      → decode old order 1 block b (bs ++ rest) ≡ ok (d, left)
      → (d.partition_id ≡ e.partition_id) × (d.key ≡ e.position) × (d.position ≡ old.position)
  unfolding layout read_layout
  ExecuteCommandRequest-decode-encode bs rest left fits written bytes h =
      let (xs, split, _, (same, kept, small, key_fits, _)) =
        decode-Takes old order 1 block b (extension-same message_spec block refl) (bs ++ rest) d
          left bytes h in
      let wire : bs ≡ layout order [] e =
        ok-injective (sym written ∙ encode-Writes e order false fits (λ off. cc) []) in
      let apart : layout order [] e ++ rest ≡ read_layout order [] d ++ left =
        ap (λ u. u ++ rest) (sym wire) ∙ split ∙ ap (λ u. u ++ left) same in
      let (first, behind) =
        uint_bytes_cancel order 2 e.partition_id d.partition_id _ _ fits.partition_id_fits small
          (simp append_assoc at apart) in
      let (second, _) =
        uint_bytes_cancel order 8 e.position d.key _ _ fits.position_fits key_fits behind in
      (sym first, sym second, kept)
