-- ===== src/Proxmox/Reconcile/Model.antt =====
-- What the client relies on of the API, and what the cache of the rule list keeps true of it.
use proxmox_dns_firewall_loc.Prelude.{
  ℕ, List, ◌∷◌, Option, none, some, ltb, Bool-cases, inl, inr, ◌≡◌, refl, sym, ap, ◌∙◌,
}
use proxmox_dns_firewall_loc.Proxmox.Api.{
  Guest, config, firewall_options, firewall_rules, firewall_rule, Form, get, delete, put, post,
  Error, Result, ok, err, Client, Server,
}
use proxmox_dns_firewall_loc.Proxmox.Rules.{Rule, RulePos, FirewallRule}
use proxmox_dns_firewall_loc.Proxmox.Client.{
  json_reply, decode_rules, form_reply, delete_reply, rule_form, or_empty, State, Cache,
  cached_list, refill, store_list, from_cache, read_clock, list_firewall_rules,
  delete_firewall_rule, create_firewall_rule, send, invalidate,
}
use proxmox_dns_firewall_loc.Proxmox.Reconcile.Collect.{numbered, remove_at}

-- The rules of one guest, and how the API changes them. Requests that fail change nothing; a new
-- rule stands in front of the others; the reading of the clock changes nothing. Since nothing else
-- changes the rules, no other writer is at work between two calls.
pub record Pve (srv : Server) (c : Client) (g : Guest) : Type 0 where
  pub held : srv.World → List Rule
  pub now_held : (w : srv.World) → held (srv.now w).1 ≡ held w
  pub list_held : (w : srv.World) → held (srv.exchange c (get (firewall_rules g)) w).1 ≡ held w
  pub list_rules :
      (w : srv.World) (rules : Option (List RulePos))
      → decode_rules (json_reply (srv.exchange c (get (firewall_rules g)) w).0) ≡ ok rules
      → or_empty rules ≡ numbered 0 (held w)
  pub delete_held :
      (p : ℕ) (w : srv.World)
      → delete_reply (srv.exchange c (delete (firewall_rule g p)) w).0 ≡ none
      → held (srv.exchange c (delete (firewall_rule g p)) w).1 ≡ remove_at p (held w)
  pub delete_failed :
      (p : ℕ) (w : srv.World) (e : Error)
      → delete_reply (srv.exchange c (delete (firewall_rule g p)) w).0 ≡ some e
      → held (srv.exchange c (delete (firewall_rule g p)) w).1 ≡ held w
  pub create_held :
      (r : FirewallRule) (w : srv.World)
      → form_reply (srv.exchange c (post (firewall_rules g) (rule_form r)) w).0 ≡ none
      → held (srv.exchange c (post (firewall_rules g) (rule_form r)) w).1 ≡ r.rule ∷ held w
  pub create_failed :
      (r : FirewallRule) (w : srv.World) (e : Error)
      → form_reply (srv.exchange c (post (firewall_rules g) (rule_form r)) w).0 ≡ some e
      → held (srv.exchange c (post (firewall_rules g) (rule_form r)) w).1 ≡ held w
  pub config_held : (w : srv.World) → held (srv.exchange c (get (config g)) w).1 ≡ held w
  pub options_held : (w : srv.World) → held (srv.exchange c (get (firewall_options g)) w).1 ≡ held w
  pub put_held :
      (form : Form) (w : srv.World) → held (srv.exchange c (put (config g) form) w).1 ≡ held w

module _ (srv : Server) (c : Client) (g : Guest) (pve : Pve srv c g) where
  open pve use {
    held, now_held, list_held, list_rules, delete_held, delete_failed, create_held, create_failed,
  }

  abbrev pub rules_of : State srv c → List Rule
  rules_of s = held s.world

  -- What is cached is what the guest has.
  abbrev pub Coherent : State srv c → Type 0
  Coherent s = (rules : List RulePos) → s.cache.rules ≡ some rules → rules ≡ numbered 0 (rules_of s)

  pub Coherent-invalidate : (s : State srv c) → Coherent (invalidate srv c s)
  Coherent-invalidate s rules e = cc

  -- the outcome of a listing in state `s`
  pub record Listed (s : State srv c) (r : Result (List RulePos)) (s' : State srv c) : Type 0 where
    pub same : rules_of s' ≡ rules_of s
    pub coherent : Coherent s'
    pub listed : (rules : List RulePos) → r ≡ ok rules → rules ≡ numbered 0 (rules_of s)

  read_clock-held : (s : State srv c) → rules_of (read_clock srv c s).1 ≡ rules_of s
  unfolding read_clock
  read_clock-held s = now_held s.world

  read_clock-cache : (s : State srv c) → (read_clock srv c s).1.cache ≡ s.cache
  unfolding read_clock
  read_clock-cache s = refl

  Coherent-same :
      (s s' : State srv c)
      → rules_of s' ≡ rules_of s
      → s'.cache ≡ s.cache
      → Coherent s
      → Coherent s'
  Coherent-same s s' e f h rules k =
      h rules (sym (ap (λ (k : Cache). k.rules) f) ∙ k) ∙ ap (numbered 0) (sym e)

  store_list-Listed :
      (s : State srv c) (r : Result (Option (List RulePos))) (s1 : State srv c)
      → rules_of s1 ≡ rules_of s
      → Coherent s1
      → ((rules : Option (List RulePos)) → r ≡ ok rules → or_empty rules ≡ numbered 0 (rules_of s))
      → Listed s (store_list srv c r s1).0 (store_list srv c r s1).1
  store_list-Listed s (err e) s1 same h k = record {
    same = same;
    coherent = h;
    listed = λ rules e'. cc;
  }
  store_list-Listed s (ok rules) s1 same h k =
      let kept = read_clock-held s1 ∙ same in
      let held_is = k rules refl in
      record {
        same = kept;
        coherent = λ rs e. sym (ap or_empty e) ∙ held_is ∙ ap (numbered 0) (sym kept);
        listed = λ rs e. sym (ok-injective e) ∙ held_is;
      }
    where
      ok-injective : {a b : List RulePos} → ok a ≡ ok b → a ≡ b
      ok-injective e = cc

  refill-Listed :
      (s s1 : State srv c)
      → rules_of s1 ≡ rules_of s
      → Coherent s1
      → Listed s (refill srv c g s1).0 (refill srv c g s1).1
  unfolding list_firewall_rules send
  refill-Listed s s1 same h =
      let (reply, w) = srv.exchange c (get (firewall_rules g)) s1.world in
      let s2 : State srv c = record s1 { world = w } in
      let same2 : rules_of s2 ≡ rules_of s1 = list_held s1.world in
      store_list-Listed s (decode_rules (json_reply reply)) s2 (same2 ∙ same)
        (Coherent-same s1 s2 same2 refl h)
        (λ rules e. list_rules s1.world rules e ∙ ap (numbered 0) same)

  from_cache-Listed :
      (s : State srv c) (t : ℕ) (cached : Option (List RulePos)) (s1 : State srv c)
      → s1.cache.rules ≡ cached
      → rules_of s1 ≡ rules_of s
      → Coherent s1
      → Listed s (from_cache srv c g t cached s1).0 (from_cache srv c g t cached s1).1
  from_cache-Listed s t none s1 e same h = refill-Listed s s1 same h
  from_cache-Listed s t (some rules) s1 e same h = elim (Bool-cases (ltb t s1.cache.until)) [
    | inl fresh ↦ rw fresh record {
      same = same;
      coherent = h;
      listed = λ rs k. sym (ok-injective k) ∙ h rules e ∙ ap (numbered 0) same;
    }
    | inr old ↦ rw old (refill-Listed s s1 same h)
  ]
    where
      ok-injective : {a b : List RulePos} → ok a ≡ ok b → a ≡ b
      ok-injective e = cc

  -- A listing changes no rule, and gives the rules that the guest has.
  pub cached_list-Listed :
      (s : State srv c) → Coherent s → Listed s (cached_list srv c g s).0 (cached_list srv c g s).1
  unfolding cached_list
  cached_list-Listed s h =
      let (t, s1) = read_clock srv c s in
      from_cache-Listed s t s1.cache.rules s1 refl (read_clock-held s)
        (Coherent-same s s1 (read_clock-held s) (read_clock-cache s) h)

  -- The deletion of a rule by its position, and the creation of one.
  pub delete_firewall_rule-none :
      (p : ℕ) (s : State srv c)
      → (delete_firewall_rule srv c g p s).0 ≡ none
      → rules_of (delete_firewall_rule srv c g p s).1 ≡ remove_at p (rules_of s)
  unfolding delete_firewall_rule send
  delete_firewall_rule-none p s e = delete_held p s.world e

  pub delete_firewall_rule-some :
      (p : ℕ) (s : State srv c) (e : Error)
      → (delete_firewall_rule srv c g p s).0 ≡ some e
      → rules_of (delete_firewall_rule srv c g p s).1 ≡ rules_of s
  unfolding delete_firewall_rule send
  delete_firewall_rule-some p s e h = delete_failed p s.world e h

  pub delete_firewall_rule-Coherent :
      (p : ℕ) (s : State srv c) (e : Error)
      → (delete_firewall_rule srv c g p s).0 ≡ some e
      → Coherent s
      → Coherent (delete_firewall_rule srv c g p s).1
  delete_firewall_rule-Coherent p s e h k =
      Coherent-same s (delete_firewall_rule srv c g p s).1 (delete_firewall_rule-some p s e h)
        (unfold delete_firewall_rule send in refl) k

  pub create_firewall_rule-none :
      (r : FirewallRule) (s : State srv c)
      → (create_firewall_rule srv c g r s).0 ≡ none
      → rules_of (create_firewall_rule srv c g r s).1 ≡ r.rule ∷ rules_of s
  unfolding create_firewall_rule send
  create_firewall_rule-none r s e = create_held r s.world e

  pub create_firewall_rule-some :
      (r : FirewallRule) (s : State srv c) (e : Error)
      → (create_firewall_rule srv c g r s).0 ≡ some e
      → rules_of (create_firewall_rule srv c g r s).1 ≡ rules_of s
  unfolding create_firewall_rule send
  create_firewall_rule-some r s e h = create_failed r s.world e h

  pub create_firewall_rule-Coherent :
      (r : FirewallRule) (s : State srv c) (e : Error)
      → (create_firewall_rule srv c g r s).0 ≡ some e
      → Coherent s
      → Coherent (create_firewall_rule srv c g r s).1
  create_firewall_rule-Coherent r s e h k =
      Coherent-same s (create_firewall_rule srv c g r s).1 (create_firewall_rule-some r s e h)
        (unfold create_firewall_rule send in refl) k
