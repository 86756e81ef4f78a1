-- ===== src/Client/Promise/Laws.antt =====
-- What follows from the promise for the channel of one subscription.
use mathlib.Core.Path.{subst}
use zbc_go.Common.{
  ℕ, ◌≤◌, ◌≡◌, ◌≢◌, refl, sym, ap, arith, ◌∙◌, ◌==◌, Bool-cases, inl, inr, ◌⊎◌, ==_iff, ne→==,
  Option, none, some, List, [], ◌∷◌, length, length-append, All, All-append,
}
use zbc_go.Client.Promise.{
  Subscription, Promise, Action, HasKey, with_channel, Allowed, ask, answer, fail, open_channel,
  push, pop, hand, Kept, stays, goes, nothing_asked,
}

pub some-none : {A : Type 0} {a : A} → some a ≢ none
some-none e = cc

-- A channel that is open stays what it is when another is opened.
pub with_channel-old :
    (channels : ℕ → Option Subscription) (n k : ℕ) (new sub : Subscription)
    → channels n ≡ none
    → channels k ≡ some sub
    → with_channel n new channels k ≡ some sub
with_channel-old channels n k new sub fresh old = elim (Bool-cases (k == n)) [
  | inl e ↦ absurd (some-none (sym old ∙ ap channels ((==_iff k n).0 e) ∙ fresh))
  | inr e ↦ rw e old
]

cons-nil : {A : Type 0} {a : A} {rest : List A} → a ∷ rest ≢ []
cons-nil e = cc

some-injective : {a b : Subscription} → some a ≡ some b → a ≡ b
some-injective {a} e = ap (λ x. elim x [ some c ↦ c | none ↦ a ]) e

module _ {X : Type 0} (n : ℕ) (sub : Subscription) where
  -- The channel `n` is open for `sub`, and holds no more events than its credits, with its key.
  pub record IsOpen (p : Promise X) : Type 0 where
    pub opened : p.channels n ≡ some sub
    pub own : All (HasKey sub.key) (p.queues n)
    pub bounded : length (p.queues n) ≤ sub.credits

  Allowed-IsOpen : {a : Action X} {p q : Promise X} → Allowed a p q → IsOpen p → IsOpen q
  Allowed-IsOpen (ask m id known) h = record { opened = h.opened; own = h.own; bounded = h.bounded }
  Allowed-IsOpen (answer response m id before after at_call same) h = record {
    opened = h.opened;
    own = h.own;
    bounded = h.bounded;
  }
  Allowed-IsOpen (fail e m id before after at_call) h = record {
    opened = h.opened;
    own = h.own;
    bounded = h.bounded;
  }
  Allowed-IsOpen (open_channel {p} k new fresh) h = record {
    opened = with_channel-old p.channels k n new sub fresh h.opened;
    own = h.own;
    bounded = h.bounded;
  }
  Allowed-IsOpen (push {p} m k its at_channel event room) h = elim (Bool-cases (n == k)) [
    | inl e ↦
        let here : n ≡ k = (==_iff n k).0 e in
        let same : its ≡ sub =
          some-injective (sym at_channel ∙ ap p.channels (sym here) ∙ h.opened) in
        record {
          opened = h.opened;
          own =
              rw (e, ← here)
                (All-append (HasKey sub.key) (p.queues n) (m ∷ []) h.own (rw same at event, tt));
          bounded =
              rw (e, ← here, length-append)
                (omega (arith, room, ap (λ x. length (p.queues x)) here, ap (λ x. x.credits) same));
        }
    | inr e ↦ record { opened = h.opened; own = rw e h.own; bounded = rw e h.bounded }
  ]
  Allowed-IsOpen (pop {p} m k rest at_queue) h = elim (Bool-cases (n == k)) [
    | inl e ↦
        let held : p.queues n ≡ m ∷ rest = ap p.queues ((==_iff n k).0 e) ∙ at_queue in
        record {
          opened = h.opened;
          own = rw e ((rw held at h.own).1);
          bounded = rw e (omega (arith, h.bounded, ap length held));
        }
    | inr e ↦ record { opened = h.opened; own = rw e h.own; bounded = rw e h.bounded }
  ]
  Allowed-IsOpen (hand m k its at_channel event unbuffered) h = h

  pub Kept-IsOpen :
      {trace : List (Action X)} {p q : Promise X} → Kept trace p q → IsOpen p → IsOpen q
  Kept-IsOpen stays h = h
  Kept-IsOpen (goes allowed kept) h = Kept-IsOpen kept (Allowed-IsOpen allowed h)

module _ {X : Type 0} (n : ℕ) where
  -- The channel is not open, and has no events.
  record IsClosed (p : Promise X) : Type 0 where
    closed : p.channels n ≡ none
    empty : p.queues n ≡ []

  abbrev KnownOf : Promise X → Type 0
  KnownOf p = IsClosed p ⊎ ((sub : Subscription) × IsOpen n sub p)

  not_closed :
      (p : Promise X) (k : ℕ) → IsClosed p → p.channels k ≢ none ⊎ (p.queues k ≢ []) → n ≢ k
  not_closed p k h (inl opened) same = opened (ap p.channels (sym same) ∙ h.closed)
  not_closed p k h (inr held) same = held (ap p.queues (sym same) ∙ h.empty)

  Allowed-KnownOf : {a : Action X} {p q : Promise X} → Allowed a p q → IsClosed p → KnownOf q
  Allowed-KnownOf (ask m id known) h = inl (record { closed = h.closed; empty = h.empty })
  Allowed-KnownOf (answer response m id before after at_call same) h =
      inl (record { closed = h.closed; empty = h.empty })
  Allowed-KnownOf (fail e m id before after at_call) h =
      inl (record { closed = h.closed; empty = h.empty })
  Allowed-KnownOf (open_channel {p} k new fresh) h = elim (Bool-cases (n == k)) [
    | inl e ↦ inr (
      new,
      record { opened = rw e refl; own = rw h.empty tt; bounded = rw h.empty (omega arith) },
    )
    | inr e ↦ inl (record { closed = rw e h.closed; empty = h.empty })
  ]
  Allowed-KnownOf (push {p} m k its at_channel event room) h =
      let other = ne→== n k (not_closed p k h (inl (λ e. some-none (sym at_channel ∙ e)))) in
      inl (record { closed = h.closed; empty = rw other h.empty })
  Allowed-KnownOf (pop {p} m k rest at_queue) h =
      let other = ne→== n k (not_closed p k h (inr (λ e. cons-nil (sym at_queue ∙ e)))) in
      inl (record { closed = h.closed; empty = rw other h.empty })
  Allowed-KnownOf (hand m k its at_channel event unbuffered) h = inl h

  Kept-KnownOf :
      {trace : List (Action X)} {p q : Promise X} → Kept trace p q → KnownOf p → KnownOf q
  Kept-KnownOf stays h = h
  Kept-KnownOf (goes allowed kept) (inl h) = Kept-KnownOf kept (Allowed-KnownOf allowed h)
  Kept-KnownOf (goes allowed kept) (inr (sub, h)) =
      Kept-KnownOf kept (inr (sub, Allowed-IsOpen n sub allowed h))

  -- A channel that is open in the end was opened for its subscription, and has had its events only.
  pub Kept-opened :
      {trace : List (Action X)} {q : Promise X} (sub : Subscription)
      → Kept trace nothing_asked q
      → q.channels n ≡ some sub
      → IsOpen n sub q
  Kept-opened {q = q} sub kept opened =
      elim (Kept-KnownOf kept (inl (record { closed = refl; empty = refl }))) [
        | inl h ↦ absurd (some-none (sym opened ∙ h.closed))
        | inr (its, h) ↦ subst (λ x. IsOpen n x q) (some-injective (sym h.opened ∙ opened)) h
      ]

  -- And one that is closed in the end has no events.
  pub Kept-closed :
      {trace : List (Action X)} {q : Promise X}
      → Kept trace nothing_asked q
      → q.channels n ≡ none
      → q.queues n ≡ []
  Kept-closed kept closed =
      elim (Kept-KnownOf kept (inl (record { closed = refl; empty = refl }))) [
        | inl h ↦ h.empty
        | inr (its, h) ↦ absurd (some-none (sym h.opened ∙ closed))
      ]
