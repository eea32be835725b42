-- ===== src/Plugin/Transparent.antt =====
-- Responses one after the other, through the plugin and without it.
use proxmox_dns_firewall_loc.Prelude.{
  ℕ, Bool, List, [], ◌∷◌, ◌++◌, Option, none, some, ◌≡◌, refl, sym, ap, ◌∙◌,
}
use proxmox_dns_firewall_loc.Text.{Text}
use proxmox_dns_firewall_loc.Proxmox.Api.{Server}
use proxmox_dns_firewall_loc.Coordinator.State.{Coordinator}
use proxmox_dns_firewall_loc.Coordinator.Dns.{Message}
use proxmox_dns_firewall_loc.Coordinator.History.{Call, answered, serve, serve_all}
use proxmox_dns_firewall_loc.Plugin.{
  Query, Site, seen_message, note_answer, note_response, write_msg,
}

module _ (srv : Server) (Msg Wire : Type 0) (seen : Msg → Message)
    (write : Option Msg → Wire → Bool × Wire) where
  -- a response that goes out, with the request that it is for
  abbrev pub Response : Type 0
  Response = Option Query × Option Msg

  -- the results that the writer of each response returns
  unfoldable pub write_all :
      List Response → Site srv Msg Wire seen write → List Bool × Site srv Msg Wire seen write
  write_all [] site = ([], site)
  write_all ((req, m) ∷ responses) site =
      let (failed, site') = write_msg srv Msg Wire seen write req m site in
      let (rest, site'') = write_all responses site' in (failed ∷ rest, site'')

  -- the same without the plugin
  unfoldable pub write_plain : List Response → Wire → List Bool × Wire
  write_plain [] wire = ([], wire)
  write_plain ((req, m) ∷ responses) wire =
      let (failed, wire') = write m wire in
      let (rest, wire'') = write_plain responses wire' in (failed ∷ rest, wire'')

  -- what the coordinator is called for
  abbrev pub call_of : Option Query → Option Msg → List Call
  call_of (some (qname ∷ questions)) m =
      answered qname (seen_message srv Msg Wire seen write m) ∷ []
  call_of _ m = []

  abbrev pub calls_of : List Response → List Call
  calls_of [] = []
  calls_of ((req, m) ∷ responses) = call_of req m ++ calls_of responses

  note_response-wire :
      (req : Option Query) (m : Option Msg) (site : Site srv Msg Wire seen write)
      → (note_response srv Msg Wire seen write req m site).wire ≡ site.wire
  note_response-wire none m site = refl
  note_response-wire (some []) m site = refl
  note_response-wire (some (qname ∷ questions)) m site = by_default site.default
    where
      by_default :
          (o : Option (Coordinator srv))
          → (note_answer srv Msg Wire seen write qname m o site).wire ≡ site.wire
      by_default none = refl
      by_default (some c) = refl

  module _ (fuel : ℕ) (preferred : Text) where
    -- the coordinator after a history, if there is one
    abbrev pub handled : List Call → Option (Coordinator srv) → Option (Coordinator srv)
    handled ks none = none
    handled ks (some c) = some (serve_all srv fuel preferred ks c)

    serve_all-append :
        (ks ks' : List Call) (c : Coordinator srv)
        → serve_all srv fuel preferred (ks ++ ks') c
          ≡ serve_all srv fuel preferred ks' (serve_all srv fuel preferred ks c)
    unfolding serve_all
    serve_all-append [] ks' c = refl
    serve_all-append (k ∷ ks) ks' c = serve_all-append ks ks' (serve srv fuel preferred k c)

    handled-append :
        (ks ks' : List Call) (o : Option (Coordinator srv))
        → handled (ks ++ ks') o ≡ handled ks' (handled ks o)
    handled-append ks ks' none = refl
    handled-append ks ks' (some c) = ap some (serve_all-append ks ks' c)

    handled-nil : (o : Option (Coordinator srv)) → handled [] o ≡ o
    unfolding serve_all
    handled-nil none = refl
    handled-nil (some c) = refl

    note_response-default :
        (req : Option Query) (m : Option Msg) (site : Site srv Msg Wire seen write)
        → (note_response srv Msg Wire seen write req m site).default
          ≡ handled (call_of req m) site.default
    note_response-default none m site = sym (handled-nil site.default)
    note_response-default (some []) m site = sym (handled-nil site.default)
    note_response-default (some (qname ∷ questions)) m site = by_default site.default refl
      where
        by_default :
            (o : Option (Coordinator srv))
            → site.default ≡ o
            → (note_answer srv Msg Wire seen write qname m o site).default
              ≡ handled (call_of (some (qname ∷ questions)) m) o
        by_default none e = e
        by_default (some c) e = unfold serve_all in refl

    -- Responses that go through the plugin reach the client as they do without it: the same ones in
    -- the same order, with the same results. Meanwhile the coordinator, if it is set, has gone
    -- through the history of the answers to the requests that have a question, each with the name
    -- of the first one, and it stays unset if it is not.
    pub write_all-transparent :
        (responses : List Response) (site : Site srv Msg Wire seen write)
        → ((write_all responses site).0 ≡ (write_plain responses site.wire).0)
          × ((write_all responses site).1.wire ≡ (write_plain responses site.wire).1)
          × ((write_all responses site).1.default ≡ handled (calls_of responses) site.default)
    unfolding write_all write_plain write_msg
    write_all-transparent [] site = (refl, refl, sym (handled-nil site.default))
    write_all-transparent ((req, m) ∷ responses) site =
        let noted = note_response srv Msg Wire seen write req m site in
        let same : noted.wire ≡ site.wire = note_response-wire req m site in
        let (failed, wire) = write m noted.wire in
        let site' : Site srv Msg Wire seen write = record noted { wire = wire } in
        let (results, wires, coordinators) = write_all-transparent responses site' in
        (
          ap (λ rest. failed ∷ rest) results
              ∙ ap (λ v. (write m v).0 ∷ (write_plain responses (write m v).1).0) same,
          wires ∙ ap (λ v. (write_plain responses (write m v).1).1) same,
          coordinators
              ∙ ap (handled (calls_of responses)) (note_response-default req m site)
              ∙ sym (handled-append (call_of req m) (calls_of responses) site.default),
        )
