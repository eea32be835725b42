-- ===== src/Coordinator/Stream/Order.antt =====
-- What a subscriber gets of the payloads that are broadcast.
use proxmox_dns_firewall_loc.Prelude.{
  ℕ, suc, ◌+◌, ◌≤◌, Bool, true, false, List, [], ◌∷◌, ◌++◌, ltb, ◌==◌, map, length, drop,
  length-append, Bool-cases, inl, inr, ◌≡◌, refl, sym, ap, subst, arith, All, append_assoc,
  append-nil,
}
use proxmox_dns_firewall_loc.Coordinator.Stream.{
  Subscriber, subscribe_sse, unsubscribe_sse, offer, greet, deliver, when_id, write_snapshot,
  take_message, Signal, joined, greeted, gone, sent, taken, signal, signals,
}

-- `xs` is `ys` with some elements left out
pub data Subsequence {ℓ} {A : Type ℓ} : List A → List A → Type ℓ where
  none_left : Subsequence [] []
  left_out : {xs ys : List A} (y : A) → Subsequence xs ys → Subsequence xs (y ∷ ys)
  taken_over : {xs ys : List A} (y : A) → Subsequence xs ys → Subsequence (y ∷ xs) (y ∷ ys)

module _ {ℓ} {A : Type ℓ} where
  Subsequence-nil : (ys : List A) → Subsequence [] ys
  Subsequence-nil [] = none_left
  Subsequence-nil (y ∷ ys) = left_out y (Subsequence-nil ys)

  Subsequence-append :
      {xs ys xs' ys' : List A}
      → Subsequence xs ys
      → Subsequence xs' ys'
      → Subsequence (xs ++ xs') (ys ++ ys')
  Subsequence-append none_left h = h
  Subsequence-append (left_out y s) h = left_out y (Subsequence-append s h)
  Subsequence-append (taken_over y s) h = taken_over y (Subsequence-append s h)

module _ {P : Type 0} where
  -- `all` are the payloads that have been broadcast so far
  abbrev pub Fine : List P → Subscriber P → Type 0
  Fine all s = (length s.queue ≤ s.buf) × Subsequence (drop 1 s.written ++ s.queue) all

  longer :
      {xs : List P} (all : List P) (p : P) → Subsequence xs all → Subsequence xs (all ++ p ∷ [])
  longer {xs} all p s =
      subst (λ t. Subsequence t (all ++ p ∷ [])) (append-nil xs)
        (Subsequence-append s (Subsequence-nil (p ∷ [])))

  offer-Fine :
      (all : List P) (p : P) (s : Subscriber P) → Fine all s → Fine (all ++ p ∷ []) (offer P p s)
  offer-Fine all p s (bound, order) = elim (Bool-cases (ltb (length s.queue) s.buf)) [
    | inl room ↦ rw room (
      omega (arith, length-append s.queue (p ∷ []), has_room (length s.queue) s.buf room),
      subst (λ t. Subsequence t (all ++ p ∷ [])) (append_assoc (drop 1 s.written) s.queue (p ∷ []))
          (Subsequence-append order (taken_over p none_left)),
    )
    | inr full ↦ rw full (bound, longer all p order)
  ]
    where
      has_room : (a b : ℕ) → ltb a b ≡ true → a + 1 ≤ b
      has_room a b e = ground arith

  greet-Fine :
      (all : List P) (p : P) (written : List P) (s : Subscriber P)
      → s.written ≡ written
      → Fine all s
      → Fine all (greet P p written s)
  greet-Fine all p [] s e (bound, order) =
      (bound, subst (λ w. Subsequence (drop 1 w ++ s.queue) all) e order)
  greet-Fine all p (first ∷ later) s e h = h

  deliver-Fine :
      (all : List P) (written queue : List P) (s : Subscriber P)
      → s.written ≡ written
      → s.queue ≡ queue
      → Fine all s
      → Fine all (deliver P written queue s)
  deliver-Fine all [] queue s w e h = h
  deliver-Fine all (first ∷ later) [] s w e h = h
  deliver-Fine all (first ∷ later) (p ∷ queue) s w e (bound, order) = (
    shorter (length s.queue) (length queue) s.buf (ap length e) bound,
    rw w (
        subst (λ t. Subsequence t all) (sym (append_assoc later (p ∷ []) queue))
          (rw (w, e) at order)),
  )
    where
      shorter : (a b c : ℕ) → a ≡ suc b → a ≤ c → b ≤ c
      shorter a b c e h = omega arith

  when_id-Fine :
      (all : List P) (b : Bool) (f : Subscriber P → Subscriber P) (s : Subscriber P)
      → ((x : Subscriber P) → Fine all x → Fine all (f x))
      → Fine all s
      → Fine all (when_id P b f s)
  when_id-Fine all true f s k h = k s h
  when_id-Fine all false f s k h = h

  All-map :
      (F G : Subscriber P → Type 0) (f : Subscriber P → Subscriber P) (subs : List (Subscriber P))
      → ((s : Subscriber P) → F s → G (f s))
      → All F subs
      → All G (map f subs)
  All-map F G f [] h a = tt
  All-map F G f (s ∷ subs) h a = (h s a.0, All-map F G f subs h a.1)

  each_id-Fine :
      (all : List P) (id : ℕ) (f : Subscriber P → Subscriber P) (subs : List (Subscriber P))
      → ((x : Subscriber P) → Fine all x → Fine all (f x))
      → All (Fine all) subs
      → All (Fine all) (map (λ s. when_id P (s.id == id) f s) subs)
  each_id-Fine all id f subs k h =
      All-map (Fine all) (Fine all) (λ s. when_id P (s.id == id) f s) subs
        (λ s. when_id-Fine all (s.id == id) f s k) h

  unsubscribe_sse-Fine :
      (all : List P) (id : ℕ) (subs : List (Subscriber P))
      → All (Fine all) subs
      → All (Fine all) (unsubscribe_sse P id subs)
  unfolding unsubscribe_sse
  unsubscribe_sse-Fine all id [] h = tt
  unsubscribe_sse-Fine all id (s ∷ subs) h = elim (Bool-cases (s.id == id)) [
    | inl same ↦ rw same (unsubscribe_sse-Fine all id subs h.1)
    | inr other ↦ rw other (h.0, unsubscribe_sse-Fine all id subs h.1)
  ]

  -- the payload that a signal broadcasts
  abbrev payloads : Signal P → List P
  payloads (sent p) = p ∷ []
  payloads _ = []

  abbrev pub sent_of : List (Signal P) → List P
  sent_of [] = []
  sent_of (x ∷ xs) = payloads x ++ sent_of xs

  same_sent :
      (all : List P) (subs : List (Subscriber P))
      → All (Fine all) subs
      → All (Fine (all ++ [])) subs
  same_sent all subs h = subst (λ t. All (Fine t) subs) (sym (append-nil all)) h

  signal-Fine :
      (all : List P) (x : Signal P) (subs : List (Subscriber P))
      → All (Fine all) subs
      → All (Fine (all ++ payloads x)) (signal P x subs)
  signal-Fine all (joined id buf) subs h =
      same_sent all (subscribe_sse P id buf subs) ((omega arith, Subsequence-nil all), h)
  signal-Fine all (gone id) subs h =
      same_sent all (unsubscribe_sse P id subs) (unsubscribe_sse-Fine all id subs h)
  signal-Fine all (sent p) subs h =
      All-map (Fine all) (Fine (all ++ p ∷ [])) (offer P p) subs (offer-Fine all p) h
  signal-Fine all (greeted id p) subs h = same_sent all (write_snapshot P id p subs) (
      each_id-Fine all id (λ x. greet P p x.written x) subs
        (λ x k. greet-Fine all p x.written x refl k) h)
  signal-Fine all (taken id) subs h = same_sent all (take_message P id subs) (
      each_id-Fine all id (λ x. deliver P x.written x.queue x) subs
        (λ x k. deliver-Fine all x.written x.queue x refl refl k) h)

  signals-Fine :
      (all : List P) (xs : List (Signal P)) (subs : List (Subscriber P))
      → All (Fine all) subs
      → All (Fine (all ++ sent_of xs)) (signals P xs subs)
  unfolding signals
  signals-Fine all [] subs h = same_sent all subs h
  signals-Fine all (x ∷ xs) subs h =
      subst (λ t. All (Fine t) (signals P xs (signal P x subs)))
        (append_assoc all (payloads x) (sent_of xs))
        (signals-Fine (all ++ payloads x) xs (signal P x subs) (signal-Fine all x subs h))

  -- Over any sequence of subscriptions, first writes, broadcasts, deliveries and ends of handlers:
  -- no channel holds more than its buffer, and what a handler has written after its first write
  -- (the snapshot, which may show what a broadcast shows too), followed by what waits for it, is
  -- what has been broadcast with some payloads left out, in the same order and none twice.
  pub signals-ordered : (xs : List (Signal P)) → All (Fine (sent_of xs)) (signals P xs [])
  signals-ordered xs = signals-Fine [] xs [] tt
