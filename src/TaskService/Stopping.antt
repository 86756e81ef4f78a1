-- ===== src/TaskService/Stopping.antt =====
-- Which workers a request to /stop reaches.
use Prim.Native.String as Native
use text.Mathlib.Text as Text
use text.Mathlib.TextPositions.{eq_refl}
use mathlib.Core.Logic.Or as Or
use mathlib.Core.List.{
  Mem-prop, eq-or-mem_of_mem-cons, Mem, not-mem-nil, mem-cons_self, mem-cons_of_mem,
  mem_of_ne_of_mem,
}
use zbc_go.Common.{
  ne→==, ℕ, ◌+◌, ◌<◌, ◌≡◌, ◌==◌, ◌||◌, refl, arith, Bool, true, false, String, Option, none, ap,
  ◌≢◌, List, [], ◌∷◌, All, Bool-cases, inl, inr,
}
use zbc_go.Wire.{Bytes, Error}
use zbc_go.Request.Values.{Data}
use zbc_go.TaskService.Views.{
  Service, main, set_worker, Json, has_channel, unreached, Goroutine, goroutine,
}
use zbc_go.TaskService.Views.{start_worker_view, stop_workers_view}

-- A request that changes the service: /start with the formatted time, or /stop. NewClient succeeds: the
-- worker of a nil client would end the service.
pub data Request : Type 0 where
  start : String → Request
  stop : Request

abbrev AllOlder : ℕ → List (String × ℕ) → Type 0
AllOlder n workers = All (λ worker. worker.1 < n) workers

AllOlder-suc : (n : ℕ) (workers : List (String × ℕ)) → AllOlder n workers → AllOlder (n + 1) workers
AllOlder-suc n [] older = tt
AllOlder-suc n (worker ∷ workers) (here, older) = (omega arith, AllOlder-suc n workers older)

set_worker-AllOlder :
    (n : ℕ) (k : String) (workers : List (String × ℕ))
    → AllOlder n workers
    → AllOlder (n + 1) (set_worker k n workers)
unfolding set_worker
set_worker-AllOlder n k [] older = (omega arith, tt)
set_worker-AllOlder n k ((k', ch') ∷ workers) (here, older) = elim (Bool-cases (Text.◌==◌ k k')) [
  | inl e ↦ rw e (omega arith, AllOlder-suc n workers older)
  | inr e ↦ rw e (omega arith, set_worker-AllOlder n k workers older)
]

older-absent :
    (n : ℕ) (workers : List (String × ℕ)) → AllOlder n workers → has_channel n workers ≡ false
unfolding has_channel
older-absent n [] older = refl
older-absent n ((k', ch') ∷ workers) (here, older) =
    rw (ne→== n ch' (λ same. ground (arith, here)), older-absent n workers older)

-- A second channel under the same key replaces the first one.
overwritten-absent :
    (n : ℕ) (k : String) (workers : List (String × ℕ))
    → AllOlder n workers
    → has_channel n (set_worker k (n + 1) (set_worker k n workers)) ≡ false
unfolding has_channel set_worker
overwritten-absent n k [] older = rw (eq_refl k, ne→== n (n + 1) (λ same. ground arith))
overwritten-absent n k ((k', ch') ∷ workers) (here, older) = elim (Bool-cases (Text.◌==◌ k k')) [
  | inl e ↦ rw (e, eq_refl k, ne→== n (n + 1) (λ same. ground arith), older-absent n workers older)
  | inr e ↦
      rw (e, e, ne→== n ch' (λ same. ground (arith, here))) (overwritten-absent n k workers older)
]

-- A goroutine that runs, and whose stop channel is in no entry of the table.
record IsLost (g : Goroutine) (s : Service) : Type 0 where
  old : g.stop_ch < s.next_channel
  runs : Mem g s.running
  forgotten : has_channel g.stop_ch s.workers ≡ false

pub or_false_inv : (a b : Bool) → (a || b) ≡ false → (a ≡ false) × (b ≡ false)
or_false_inv true b h = ground arith
or_false_inv false b h = (refl, h)

has_channel-set_worker_ne :
    (n : ℕ) (k : String) (ch : ℕ) (workers : List (String × ℕ))
    → (n == ch) ≡ false
    → has_channel n workers ≡ false
    → has_channel n (set_worker k ch workers) ≡ false
unfolding set_worker has_channel
has_channel-set_worker_ne n k ch [] other absent = rw other
has_channel-set_worker_ne n k ch ((k', ch') ∷ workers) other absent =
    let (this, rest) = or_false_inv (n == ch') (has_channel n workers) absent in
    elim (Bool-cases (Text.◌==◌ k k')) [
      | inl e ↦ rw (e, other, rest)
      | inr e ↦ rw (e, this) (has_channel-set_worker_ne n k ch workers other rest)
    ]

reached_ne :
    (g m : Goroutine) (workers : List (String × ℕ))
    → has_channel g.stop_ch workers ≡ false
    → has_channel m.stop_ch workers ≡ true
    → g ≢ m
reached_ne g m workers absent here same =
    let channels : g.stop_ch ≡ m.stop_ch = ap (λ x. x.stop_ch) same in cc

mem-unreached :
    (g : Goroutine) (workers : List (String × ℕ)) (running : List Goroutine)
    → has_channel g.stop_ch workers ≡ false
    → Mem g running
    → Mem g (unreached workers running)
unfolding unreached
mem-unreached g workers [] absent runs = absurd (not-mem-nil runs)
mem-unreached g workers (m ∷ running) absent runs =
    elim (Bool-cases (has_channel m.stop_ch workers)) [
      | inl e ↦ rw e (
          mem-unreached g workers running absent
            (mem_of_ne_of_mem (λ same. reached_ne g m workers absent e same) runs))
      | inr e ↦ rw e (
          Or.elim Mem-prop (eq-or-mem_of_mem-cons runs) (λ same. rw same mem-cons_self)
            (λ later. mem-cons_of_mem m (mem-unreached g workers running absent later)))
    ]

-- The goroutine that a request to /start begins.
abbrev pub started : Service → String → Goroutine
started s now = goroutine none s.next_channel (Native.◌++◌ "zbc-" now)

module _ (marshal_json marshal_indent : Data Json → Bytes × Option Error) where
  unfoldable pub handle : Request → Service → Service
  unfolding start_worker_view stop_workers_view
  handle (start now) s = (start_worker_view marshal_json none now s).0
  handle stop s = (stop_workers_view marshal_indent s).0

  unfoldable pub handle_all : List Request → Service → Service
  unfolding handle
  handle_all [] s = s
  handle_all (r ∷ requests) s = handle_all requests (handle r s)

  handle-IsLost : (g : Goroutine) (r : Request) (s : Service) → IsLost g s → IsLost g (handle r s)
  unfolding handle start_worker_view stop_workers_view
  handle-IsLost g (start now) s lost = record {
    old = omega (arith, lost.old);
    runs = mem-cons_of_mem _ lost.runs;
    forgotten =
        has_channel-set_worker_ne g.stop_ch _ s.next_channel s.workers
          (ne→== g.stop_ch s.next_channel (λ same. ground (arith, lost.old))) lost.forgotten;
  }
  handle-IsLost g stop s lost = record {
    old = lost.old;
    runs = mem-unreached g s.workers s.running lost.forgotten lost.runs;
    forgotten = refl;
  }

  handle-AllOlder :
      (r : Request) (s : Service)
      → AllOlder s.next_channel s.workers
      → AllOlder (handle r s).next_channel (handle r s).workers
  unfolding handle start_worker_view stop_workers_view
  handle-AllOlder (start now) s older = set_worker-AllOlder s.next_channel _ s.workers older
  handle-AllOlder stop s older = tt

  handle_all-AllOlder :
      (requests : List Request) (s : Service)
      → AllOlder s.next_channel s.workers
      → AllOlder (handle_all requests s).next_channel (handle_all requests s).workers
  unfolding handle_all
  handle_all-AllOlder [] s older = older
  handle_all-AllOlder (r ∷ requests) s older =
      handle_all-AllOlder requests (handle r s) (handle-AllOlder r s older)

  handle_all-IsLost :
      (g : Goroutine) (requests : List Request) (s : Service)
      → IsLost g s
      → IsLost g (handle_all requests s)
  unfolding handle_all
  handle_all-IsLost g [] s lost = lost
  handle_all-IsLost g (r ∷ requests) s lost =
      handle_all-IsLost g requests (handle r s) (handle-IsLost g r s lost)

  start_twice-IsLost :
      (s : Service) (now : String)
      → AllOlder s.next_channel s.workers
      → IsLost (started s now) (handle (start now) (handle (start now) s))
  unfolding handle start_worker_view
  start_twice-IsLost s now older = record {
    old = omega arith;
    runs = mem-cons_of_mem _ mem-cons_self;
    forgotten = overwritten-absent s.next_channel _ s.workers older;
  }

  -- If two requests to /start, one behind the other, come at the same second, then the goroutine of the
  -- first one runs on after whatever requests to /start and /stop come later; any requests may have
  -- come before, and NewClient succeeds in each.
  pub start_twice-unstoppable :
      (before later : List Request) (now : String)
      → let s = handle_all before main in
        Mem (started s now) (handle_all later (handle (start now) (handle (start now) s))).running
  unfolding main
  start_twice-unstoppable before later now =
      let s = handle_all before main in
      (handle_all-IsLost (started s now) later _
        (start_twice-IsLost s now (handle_all-AllOlder before main tt))).runs
