-- ===== src/Coordinator/Stream.antt =====
-- The subscribers of the event stream: SubscribeSSE, UnsubscribeSSE, broadcast, and the loop of the
-- handler of /stream. A send to a channel that was closed after `broadcast` had copied the set of
-- channels panics and is recovered from: it changes nothing, so that a broadcast is one step.
pub mod Order
mod Tests
use proxmox_dns_firewall_loc.Prelude.{
  ℕ, Bool, true, false, List, [], ◌∷◌, ◌++◌, ltb, ◌==◌, if◌then◌else◌, map, length,
}

module _ (Payload : Type 0) where
  -- A channel, told apart by a number, with what its handler has written so far.
  pub record Subscriber : Type 0 where
    pub id : ℕ
    pub buf : ℕ
    pub queue : List Payload
    pub written : List Payload

  abbrev pub subscribe_sse : ℕ → ℕ → List Subscriber → List Subscriber
  subscribe_sse id buf subs = record { id = id; buf = buf; queue = []; written = [] } ∷ subs

  unfoldable pub unsubscribe_sse : ℕ → List Subscriber → List Subscriber
  unsubscribe_sse id [] = []
  unsubscribe_sse id (s ∷ subs) =
      let rest = unsubscribe_sse id subs in if s.id == id then rest else s ∷ rest

  -- the select of `broadcast`: a full channel drops the payload
  abbrev pub offer : Payload → Subscriber → Subscriber
  offer payload s =
      if ltb (length s.queue) s.buf then record s { queue = s.queue ++ payload ∷ [] } else s

  abbrev pub broadcast : Payload → List Subscriber → List Subscriber
  broadcast payload subs = map (offer payload) subs

  -- The handler's first write, once it has subscribed: the snapshot of that moment.
  abbrev pub greet : Payload → List Payload → Subscriber → Subscriber
  greet payload [] s = record s { written = payload ∷ [] }
  greet payload (first ∷ later) s = s

  -- From then on it takes the oldest message, if there is one, and writes it.
  abbrev pub deliver : List Payload → List Payload → Subscriber → Subscriber
  deliver [] queue s = s
  deliver (first ∷ later) [] s = s
  deliver (first ∷ later) (payload ∷ queue) s = record s {
    queue = queue;
    written = s.written ++ payload ∷ [];
  }

  abbrev pub when_id : Bool → (Subscriber → Subscriber) → Subscriber → Subscriber
  when_id true f s = f s
  when_id false f s = s

  abbrev pub write_snapshot : ℕ → Payload → List Subscriber → List Subscriber
  write_snapshot id payload subs =
      map (λ s. when_id (s.id == id) (λ x. greet payload x.written x) s) subs

  abbrev pub take_message : ℕ → List Subscriber → List Subscriber
  take_message id subs = map (λ s. when_id (s.id == id) (λ x. deliver x.written x.queue x) s) subs

  -- a write that fails ends the handler, which unsubscribes
  pub data Signal : Type 0 where
    joined : ℕ → ℕ → Signal
    greeted : ℕ → Payload → Signal
    gone : ℕ → Signal
    sent : Payload → Signal
    taken : ℕ → Signal

  abbrev pub signal : Signal → List Subscriber → List Subscriber
  signal (joined id buf) subs = subscribe_sse id buf subs
  signal (greeted id payload) subs = write_snapshot id payload subs
  signal (gone id) subs = unsubscribe_sse id subs
  signal (sent payload) subs = broadcast payload subs
  signal (taken id) subs = take_message id subs

  unfoldable pub signals : List Signal → List Subscriber → List Subscriber
  signals [] subs = subs
  signals (x ∷ xs) subs = signals xs (signal x subs)

-- Opens every operation of this file, for evaluation.
unfoldable pub stream_run : Unit {0}
unfolding unsubscribe_sse signals
stream_run = tt
