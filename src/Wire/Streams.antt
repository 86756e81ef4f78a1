-- ===== src/Wire/Streams.antt =====
-- A small calculus for the `do` blocks of the codecs: three predicates on a stream computation,
-- each with a rule for every step that the codecs make.
use zbc_go.Common.{ℕ, ◌^◌, ◌≤◌, ◌<◌, ◌≡◌, refl, sym, ap, ◌∙◌, arith}
use zbc_go.Common.{[], ◌++◌, append_assoc, append-nil, length, take, drop, All, ltb}
use zbc_go.Common.{
  ◌⊎◌, length-append, length-take, take-append, drop-append, le→ltb, ltb_false→le, inl, inr,
}
use zbc_go.Common.{take-append-drop, take-append_le, drop-append_le, All-take, All-drop}
use zbc_go.Common.{Bool-cases}
use zbc_go.Wire.{Error, Fault, ◌>>◌, Bytes, IsByte, Outcome, ok, err, panic, Stream, ◌>>=◌, return}
use zbc_go.Wire.{ByteOrder, uint_bytes, uint_value}
use zbc_go.Wire.{read_full, read_uint, write_bytes, write_uint}
use zbc_go.Wire.Integers.{length-uint_bytes, uint_value-uint_bytes, uint_bytes-uint_value}
use zbc_go.Wire.Integers.{uint_value-lt}

-- `m` reads the bytes `bs` as `a`, whatever follows them.
pub record Reads {A : Type 0} (m : Stream A) (bs : Bytes) (a : A) : Type 0 where
  pub apply : (rest : Bytes) → m (bs ++ rest) ≡ ok (a, rest)

-- `m` appends the bytes `bs`, whatever stands in front of them.
abbrev pub Writes : Stream (Unit {0}) → Bytes → Type 0
Writes m bs = (s : Bytes) → m s ≡ ok (tt, s ++ bs)

-- More input behind that on which `m` succeeds stays unread.
abbrev pub IsLocal : {A : Type 0} → Stream A → Type 0
IsLocal {A} m =
    (s more : Bytes) (a : A) (rest : Bytes)
    → m s ≡ ok (a, rest)
    → m (s ++ more) ≡ ok (a, rest ++ more)

-- Where `m` succeeds on a byte string, it has taken some bytes `bs` off its front, and its result
-- `a` stands in the relation `P` to them.
abbrev pub Takes : {A : Type 0} → Stream A → (A → Bytes → Type 0) → Type 0
Takes {A} m P =
    (s : Bytes) (a : A) (rest : Bytes)
    → All IsByte s
    → m s ≡ ok (a, rest)
    → (bs : Bytes) × (s ≡ bs ++ rest) × All IsByte rest × P a bs

Outcome-cases {ℓ} :
    {A : Type ℓ} (r : Outcome A)
    → ((a : A) × (r ≡ ok a)) ⊎ ((e : Error) × (r ≡ err e)) ⊎ ((p : Fault) × (r ≡ panic p))
Outcome-cases (ok a) = inl (a, refl)
Outcome-cases (err e) = inr (inl (e, refl))
Outcome-cases (panic p) = inr (inr (p, refl))

err-ne-ok {ℓ κ} : {A : Type ℓ} {C : Type κ} (e : Error) {a : A} → err e ≡ ok a → C
err-ne-ok e h = cc

pub panic-ne-ok {ℓ κ} : {A : Type ℓ} {C : Type κ} (p : Fault) {a : A} → panic p ≡ ok a → C
panic-ne-ok p h = cc

module _ {A B : Type 0} (m : Stream A) (f : A → Stream B) where
  pub >>=-eq-ok :
      (s : Bytes) (b : B) (rest : Bytes)
      → (m >>= f) s ≡ ok (b, rest)
      → (a : A) × (t : Bytes) × (m s ≡ ok (a, t)) × (f a t ≡ ok (b, rest))
  >>=-eq-ok s b rest h = elim (Outcome-cases (m s)) [
    | inl ((a, t), e) ↦ (a, t, e, rw (e, ◌>>=◌) at h)
    | inr (inl (x, e)) ↦ err-ne-ok x (rw (e, ◌>>=◌) at h)
    | inr (inr (x, e)) ↦ panic-ne-ok x (rw (e, ◌>>=◌) at h)
  ]

  pub >>=-IsLocal : IsLocal m → ((a : A) → IsLocal (f a)) → IsLocal (m >>= f)
  >>=-IsLocal hm hf s more b rest h =
      let (a, t, e, k) = >>=-eq-ok s b rest h in rw (hm s more a t e, ◌>>=◌) (hf a t more b rest k)

  pub >>=-Takes :
      (P : A → Bytes → Type 0) (Q : B → Bytes → Type 0)
      → Takes m P
      → ((a : A) (xs : Bytes) → P a xs → Takes (f a) (λ b ys. Q b (xs ++ ys)))
      → Takes (m >>= f) Q
  >>=-Takes P Q hm hf s b rest hs h =
      let (a, t, e, k) = >>=-eq-ok s b rest h in
      let (xs, es, ht, p) = hm s a t hs e in
      let (ys, et, hrest, q) = hf a xs p t b rest ht k in
      (xs ++ ys, es ∙ ap (λ u. xs ++ u) et ∙ sym (append_assoc xs ys rest), hrest, q)

module _ {A B : Type 0} {m : Stream A} (f : A → Stream B) {xs : Bytes} {a : A} {b : B} where
  pub >>=-Reads : {ys : Bytes} → Reads m xs a → Reads (f a) ys b → Reads (m >>= f) (xs ++ ys) b
  >>=-Reads {ys} hm hf = record {
    apply = λ rest. rw (append_assoc, hm.apply (ys ++ rest), ◌>>=◌) (hf.apply rest);
  }

  -- As above, where nothing is left for `f` to read.
  pub >>=-Reads_last : Reads m xs a → Reads (f a) [] b → Reads (m >>= f) xs b
  >>=-Reads_last hm hf = record { apply = λ rest. rw (hm.apply rest, ◌>>=◌) (hf.apply rest) }

module _ (m k : Stream (Unit {0})) where
  pub >>-Writes : (xs ys : Bytes) → Writes m xs → Writes k ys → Writes (m >> k) (xs ++ ys)
  >>-Writes xs ys hm hk s = rw (hm s, ◌>>=◌) (hk (s ++ xs) ∙ rw append_assoc)

module _ {A : Type 0} (a : A) where
  pub return-Reads : Reads (return a) [] a
  return-Reads = record { apply = λ rest. refl }

  pub return-IsLocal : IsLocal (return a)
  return-IsLocal s more b rest h = ground arith

  pub return-Takes : (P : A → Bytes → Type 0) → P a [] → Takes (return a) P
  return-Takes P p s b rest hs h =
      let value : a ≡ b = ground arith in
      let same : s ≡ rest = ground arith in ([], same, rw (← same) hs, rw (← value) p)

pub write_bytes-Writes : (bs : Bytes) → Writes (write_bytes bs) bs
unfolding write_bytes
write_bytes-Writes bs s = refl

pub write_uint-Writes :
    (order : ByteOrder) (w v : ℕ) → Writes (write_uint order w v) (uint_bytes order w v)
unfolding write_uint
write_uint-Writes order w v s = refl

pub read_full-Reads : (n : ℕ) (bs : Bytes) → length bs ≡ n → Reads (read_full n) bs bs
unfolding read_full
read_full-Reads n bs e = rw (← e) (record {
  apply = λ rest. rw (
    le→ltb (length (bs ++ rest)) (length bs) (omega (arith, length-append bs rest)),
    take-append,
    drop-append,
  );
})

split_at :
    (n : ℕ) (s bs rest : Bytes)
    → n ≤ length s
    → ◌≡◌ {A = Outcome (Bytes × Bytes)} (ok (take n s, drop n s)) (ok (bs, rest))
    → (s ≡ bs ++ rest) × (length bs ≡ n) × (bs ≡ take n s) × (rest ≡ drop n s)
split_at n s bs rest enough h =
    let front : bs ≡ take n s = ground arith in
    let back : rest ≡ drop n s = ground arith in
    (
      rw (front, back) (sym (take-append-drop n s)),
      rw front (omega (arith, length-take n s)),
      front,
      back,
    )

pub read_full_inv :
    (n : ℕ) (s bs rest : Bytes)
    → read_full n s ≡ ok (bs, rest)
    → (s ≡ bs ++ rest) × (length bs ≡ n) × (bs ≡ take n s) × (rest ≡ drop n s)
unfolding read_full
read_full_inv n s bs rest h = elim (Bool-cases (ltb (length s) n)) [
  | inl short ↦ err-ne-ok _ (rw short at h)
  | inr long ↦ split_at n s bs rest (ltb_false→le (length s) n long) (rw long at h)
]

pub read_full-IsLocal : (n : ℕ) → IsLocal (read_full n)
unfolding read_full
read_full-IsLocal n s more bs rest h =
    let (split, size, front, back) = read_full_inv n s bs rest h in
    let enough : n ≤ length s = omega (arith, ap length split, length-append bs rest, size) in
    rw (
      le→ltb (length (s ++ more)) n (omega (arith, length-append s more)),
      take-append_le n s more enough,
      drop-append_le n s more enough,
      front,
      back,
    )

pub read_full-Takes :
    (n : ℕ) → Takes (read_full n) (λ a xs. (a ≡ xs) × (length xs ≡ n) × All IsByte xs)
read_full-Takes n s bs rest hs h =
    let (split, size, front, back) = read_full_inv n s bs rest h in
    (bs, split, rw back (All-drop IsByte n s hs), (refl, size, rw front (All-take IsByte n s hs)))

pub read_uint-Reads :
    (order : ByteOrder) (w v : ℕ) → v < 256 ^ w → Reads (read_uint order w) (uint_bytes order w v) v
unfolding read_uint
read_uint-Reads order w v h =
    let bytes = uint_bytes order w v in
    >>=-Reads_last _ (read_full-Reads w bytes (length-uint_bytes order w v))
      (rw (uint_value-uint_bytes order w v h) (return-Reads v))

pub read_uint-IsLocal : (order : ByteOrder) (w : ℕ) → IsLocal (read_uint order w)
unfolding read_uint
read_uint-IsLocal order w =
    >>=-IsLocal (read_full w) _ (read_full-IsLocal w) (λ bs. return-IsLocal _)

pub read_uint-Takes :
    (order : ByteOrder) (w : ℕ)
    → Takes (read_uint order w) (λ v xs. (xs ≡ uint_bytes order w v) × (v < 256 ^ w))
unfolding read_uint
read_uint-Takes order w =
    >>=-Takes (read_full w) _ _ _ (read_full-Takes w) λ bs xs (same, size, bytes).
      let value : uint_bytes order w (uint_value order xs) ≡ xs =
        rw size at (uint_bytes-uint_value order xs bytes) in
      return-Takes _ _ (
        append-nil xs ∙ sym value ∙ ap (λ b. uint_bytes order w (uint_value order b)) (sym same),
        rw (same, ← size) (uint_value-lt order xs bytes),
      )
