-- ===== src/TaskService/Fresh.antt =====
-- Workers that start at different seconds are all stopped.
use Prim.Native.String as Native
use text.Mathlib.Text as Text
use mathlib.Core.Bool.{or-true}
use mathlib.Core.Path.{subst}
use zbc_go.Common.{
  arith, sym, ℕ, ◌==◌, ◌||◌, ◌≡◌, refl, eq→==, Bool, true, false, String, Option, List, [], ◌∷◌,
  All, Bool-cases, inl, inr,
}
use zbc_go.Wire.{Bytes, Error}
use zbc_go.Request.Values.{Data}
use zbc_go.TaskService.Views.{Goroutine, Service, main, set_worker, Json, has_channel, unreached}
use zbc_go.TaskService.Views.{start_worker_view, stop_workers_view}
use zbc_go.TaskService.Stopping.{Request, start, stop, handle, handle_all, or_false_inv}

-- Whether workers[k] is set.
unfoldable pub has_key : String → List (String × ℕ) → Bool
has_key k [] = false
has_key k ((k', _) ∷ workers) = Text.◌==◌ k k' || has_key k workers

has_channel-set_worker_self :
    (n : ℕ) (k : String) (workers : List (String × ℕ))
    → has_channel n (set_worker k n workers) ≡ true
unfolding has_channel set_worker
has_channel-set_worker_self n k [] = rw (eq→== n n refl)
has_channel-set_worker_self n k ((k', ch) ∷ workers) = elim (Bool-cases (Text.◌==◌ k k')) [
  | inl e ↦ rw (e, eq→== n n refl)
  | inr e ↦ rw (e, has_channel-set_worker_self n k workers) (or-true (n == ch))
]

-- A new key leaves the channels of the others where they are.
has_channel-set_worker_new :
    (n : ℕ) (k : String) (ch : ℕ) (workers : List (String × ℕ))
    → has_key k workers ≡ false
    → has_channel n workers ≡ true
    → has_channel n (set_worker k ch workers) ≡ true
unfolding has_channel set_worker has_key
has_channel-set_worker_new n k ch [] absent here = ground arith
has_channel-set_worker_new n k ch ((k', ch') ∷ workers) absent here =
    let (other, rest) = or_false_inv (Text.◌==◌ k k') (has_key k workers) absent in
    elim (Bool-cases (n == ch')) [
      | inl e ↦ rw (other, e)
      | inr e ↦ rw (other, e) (has_channel-set_worker_new n k ch workers rest (rw e at here))
    ]

-- Each goroutine that runs can be reached.
abbrev AllReached : List (String × ℕ) → List Goroutine → Type 0
AllReached workers running = All (λ g. has_channel g.stop_ch workers ≡ true) running

set_worker-AllReached :
    (k : String) (ch : ℕ) (workers : List (String × ℕ)) (running : List Goroutine)
    → has_key k workers ≡ false
    → AllReached workers running
    → AllReached (set_worker k ch workers) running
set_worker-AllReached k ch workers [] absent reached = tt
set_worker-AllReached k ch workers (g ∷ running) absent (here, reached) = (
  has_channel-set_worker_new g.stop_ch k ch workers absent here,
  set_worker-AllReached k ch workers running absent reached,
)

unreached-none :
    (workers : List (String × ℕ)) (running : List Goroutine)
    → AllReached workers running
    → unreached workers running ≡ []
unfolding unreached
unreached-none workers [] reached = refl
unreached-none workers (g ∷ running) (here, reached) =
    rw here (unreached-none workers running reached)

module _ (marshal_json marshal_indent : Data Json → Bytes × Option Error) where
  -- No request to /start comes at the second of a worker that is in the table.
  unfoldable pub IsFresh : List Request → Service → Type 0
  unfolding handle
  IsFresh [] s = Unit
  IsFresh (start now ∷ requests) s =
      (has_key (Native.◌++◌ "zbc-" now) s.workers ≡ false)
      × IsFresh requests (handle marshal_json marshal_indent (start now) s)
  IsFresh (stop ∷ requests) s = IsFresh requests (handle marshal_json marshal_indent stop s)

  handle_all-AllReached :
      (requests : List Request) (s : Service)
      → IsFresh requests s
      → AllReached s.workers s.running
      → AllReached
          (handle_all marshal_json marshal_indent requests s).workers
          (handle_all marshal_json marshal_indent requests s).running
  unfolding handle_all handle start_worker_view stop_workers_view IsFresh
  handle_all-AllReached [] s fresh reached = reached
  handle_all-AllReached (start now ∷ requests) s (new, fresh) reached =
      handle_all-AllReached requests _ fresh (
        has_channel-set_worker_self s.next_channel _ s.workers,
        set_worker-AllReached _ s.next_channel s.workers s.running new reached,
      )
  handle_all-AllReached (stop ∷ requests) s fresh reached =
      handle_all-AllReached requests _ fresh
        (subst (AllReached []) (sym (unreached-none s.workers s.running reached)) tt)

  -- If no request to /start comes at the second at which a worker that was not stopped since has
  -- started, then after a request to /stop no goroutine of a worker runs; NewClient succeeds in each.
  pub stop-all :
      (requests : List Request)
      → IsFresh requests main
      → (handle marshal_json marshal_indent stop
          (handle_all marshal_json marshal_indent requests main)).running
        ≡ []
  unfolding main handle stop_workers_view
  stop-all requests fresh = unreached-none _ _ (handle_all-AllReached requests main fresh tt)
