-- ===== src/Broker/Call/Outcomes.antt =====
-- internal/broker/live.go: when a call succeeds, what it returns, and what its failures say.
use ozy.Broker.Budget.Prefix.{MarshalsArrays}
use ozy.Broker.Budget.Bounds.{call_budget-Honest, Honest}
use ozy.Schema.{validate}
use mathlib.Core.Path.{subst}
use ozy.Json.{Value}
use ozy.Catalog.{Tool, Reply, ok, fail}
use ozy.Contract.{Error, Message, CallResult, connection, call_failed, tool_error}
use ozy.Config.{Config, ServerConfig}
use ozy.Downstream.{secret_values, left_alone, scrub}
use ozy.Downstream.Scrub.{NoStar, scrub_hides}
use ozy.Broker.{Answer, nothing, panicked, done, failed}
use ozy.Broker.Refs.{split_tool_ref}
use ozy.Broker.Budget.{Notice, apply_call_budget}
use ozy.Broker.Call.{
  after_validation, after_split, after_lookup, arguments_error, validate_args, after_connect,
  after_call, server_lookup, scrub_message, Backend, Contact, call_live,
}
use ozy.Broker.Reply.{CallReply, call_error, replied, ToolReply, normalize_call_result, notice_text}
use ozy.Common.{
  ℤ, ◌≤◌, length, if_case, Str, has, contains, Map, ◌≡◌, refl, sym, ap, Bool, true, false, Option,
  none, some, List, [], ◌∷◌, arith,
}

-- Whether the part of a message that comes from a downstream server holds a text.
abbrev pub carries : Message → Str → Bool
carries (connection msg) t = contains msg t
carries (call_failed id msg) t = contains msg t
carries (tool_error msg) t = contains msg t
carries _ t = false

-- Failures of a kind: a property of an answer that a success has.
abbrev pub Failing : {A : Type 0} → (Error → Type 0) → Answer A → Type 0
Failing P (failed e) = P e
Failing P _ = Unit

-- A secret that `scrub` masks in messages about a server.
pub record Secret (server : ServerConfig) (t : Str) : Type 0 where
  pub known : has (secret_values server) t ≡ true
  pub masked : left_alone t ≡ false
  pub plain : NoStar t

scrubbed :
    (server : ServerConfig) (t msg : Str) → Secret server t → contains (scrub msg server) t ≡ false
scrubbed server t msg s = scrub_hides msg t server s.known s.masked s.plain

scrub_message-hides :
    (server : ServerConfig) (t : Str) (m : Message)
    → Secret server t
    → carries (scrub_message server m) t ≡ false
scrub_message-hides server t (connection msg) s = scrubbed server t msg s
scrub_message-hides server t (call_failed id msg) s = scrubbed server t msg s
scrub_message-hides server t (tool_error msg) s = scrubbed server t msg s
scrub_message-hides server t _ s = refl

module _ {S : Type 0} (w : Backend S) (cfg : Option Config) (ref : Str) (args : Map Value) where
  -- What a successful call returned.
  pub record Returned (r : CallResult) : Type 0 where
    pub id : Str
    pub name : Str
    pub server : ServerConfig
    pub named : split_tool_ref ref ≡ some (id, name)
    pub configured : server_lookup cfg id ≡ some server
    pub session : S
    pub opened : (w.connect id server).session ≡ some session
    pub reply : ToolReply
    pub answered : w.call session name args ≡ replied reply
    pub fine : reply.is_error ≡ false
    pub marked : (r.ok ≡ true) × (r.tool_ref ≡ ref)
    pub payload :
        r.result ≡ (apply_call_budget w.marshal w.to_valid_utf8 cfg (normalize_call_result reply)).0
    pub noticed :
        r.notices
        ≡ notice_text w.format_int
            (apply_call_budget w.marshal w.to_valid_utf8 cfg (normalize_call_result reply)).1

  -- What is asserted of an answer: of a success that it is what the tool returned, of a failure
  -- that it names the reference and that no masked secret of the named server is in it.
  abbrev pub Reported : Answer CallResult → Type 0
  Reported (done r) = Returned r
  Reported nothing = ⊥
  Reported (failed e) = e.tool_ref ≡ ref
  Reported panicked = ⊥

  call-Reported :
      (id name : Str) (server : ServerConfig) (session : S) (reply : CallReply)
      → split_tool_ref ref ≡ some (id, name)
      → server_lookup cfg id ≡ some server
      → (w.connect id server).session ≡ some session
      → w.call session name args ≡ reply
      → Reported (after_call w cfg ref args id name server reply)
  call-Reported id name server session (call_error e) n c o a =
      if_case {A = Error} (λ e. e.tool_ref ≡ ref) w.late_call (λ _. refl) (λ _. refl)
  call-Reported id name server session (replied reply) n c o a =
      if_case {A = Answer CallResult} Reported reply.is_error (λ _. refl)
        (λ fine. record {
          id = id;
          name = name;
          server = server;
          named = n;
          configured = c;
          session = session;
          opened = o;
          reply = reply;
          answered = a;
          fine = fine;
          marked = (refl, refl);
          payload = refl;
          noticed = refl;
        })

  connect-Reported :
      (id name : Str) (server : ServerConfig) (e : Option Error) (session : Option S)
      → split_tool_ref ref ≡ some (id, name)
      → server_lookup cfg id ≡ some server
      → (w.connect id server).session ≡ session
      → Reported (after_connect w cfg ref args id name server e session).0
  connect-Reported id name server (some e) session n c o =
      if_case {A = Error} (λ e. e.tool_ref ≡ ref) w.late_connect (λ _. refl) (λ _. refl)
  connect-Reported id name server none none n c o = refl
  connect-Reported id name server none (some session) n c o =
      call-Reported id name server session _ n c o refl

  arguments-Reported :
      (tool : Tool) (ps : List Str) (e : Error)
      → arguments_error ref tool ps ≡ some e
      → e.tool_ref ≡ ref
  arguments-Reported tool [] e h = grind arith
  arguments-Reported tool (p ∷ ps) e h =
      sym (ap (λ o. elim o [ none ↦ ref | some d ↦ d.tool_ref ]) h)

  validate_args-Reported :
      (r : Reply (Option Tool)) (e : Error)
      → validate_args w.quote ref args r ≡ some e
      → e.tool_ref ≡ ref
  validate_args-Reported (fail f) e h = grind arith
  validate_args-Reported (ok none) e h = grind arith
  validate_args-Reported (ok (some tool)) e h =
      ground (arith, arguments-Reported tool (validate w.quote tool.input_schema args) e)

  validation-Reported :
      (id name : Str) (server : ServerConfig) (e : Option Error)
      → split_tool_ref ref ≡ some (id, name)
      → server_lookup cfg id ≡ some server
      → validate_args w.quote ref args (w.get_tool ref) ≡ e
      → Reported (after_validation w cfg ref args id name server e).0
  validation-Reported id name server (some e) n c v = validate_args-Reported (w.get_tool ref) e v
  validation-Reported id name server none n c v = connect-Reported id name server _ _ n c refl

  lookup-Reported :
      (id name : Str) (server : Option ServerConfig)
      → split_tool_ref ref ≡ some (id, name)
      → server_lookup cfg id ≡ server
      → Reported (after_lookup w cfg ref args id name server).0
  lookup-Reported id name none n c = refl
  lookup-Reported id name (some server) n c =
      if_case {A = Answer CallResult × List Contact} (λ r. Reported r.0) server.enabled
        (λ _. validation-Reported id name server _ n c refl) (λ _. refl)

  split-Reported :
      (parts : Option (Str × Str))
      → split_tool_ref ref ≡ parts
      → Reported (after_split w cfg ref args parts).0
  split-Reported none n = refl
  split-Reported (some (id, name)) n = lookup-Reported id name _ n refl

  -- A call is answered by a result or a failure. A result is the reply, without an error, of the
  -- tool that the reference names to the arguments given, after the result budget, and carries the
  -- reference; a failure names the reference.
  pub call_live-Reported : Reported (call_live w cfg ref args).0
  unfolding call_live
  call_live-Reported = split-Reported (split_tool_ref ref) refl

  -- Every failure of the connection and of the session, for a masked secret of the server.
  connect-hides :
      (id name : Str) (server : ServerConfig) (t : Str) (e : Option Error) (session : Option S)
      → Secret server t
      → Failing
          (λ e. carries e.message t ≡ false)
          (after_connect w cfg ref args id name server e session).0
  connect-hides id name server t (some e) session s =
      if_case {A = Error} (λ e. carries e.message t ≡ false) w.late_connect (λ _. refl)
        (λ _. scrub_message-hides server t e.message s)
  connect-hides id name server t none none s = refl
  connect-hides id name server t none (some session) s = call-hides (w.call session name args)
    where
      call-hides :
          (r : CallReply)
          → Failing (λ e. carries e.message t ≡ false) (after_call w cfg ref args id name server r)
      call-hides (call_error e) =
          if_case {A = Error} (λ e. carries e.message t ≡ false) w.late_call (λ _. refl)
            (λ _. scrubbed server t e s)
      call-hides (replied res) =
          if_case {A = Answer CallResult} (Failing (λ e. carries e.message t ≡ false)) res.is_error
            (λ _. scrubbed server t _ s) (λ _. tt)

  arguments-carries :
      (tool : Tool) (ps : List Str) (t : Str) (e : Error)
      → arguments_error ref tool ps ≡ some e
      → carries e.message t ≡ false
  arguments-carries tool [] t e h = grind arith
  arguments-carries tool (p ∷ ps) t e h =
      sym (ap (λ o. elim o [ none ↦ false | some d ↦ carries d.message t ]) h)

  validation-hides :
      (id name : Str) (server : ServerConfig) (t : Str) (r : Reply (Option Tool)) (e : Option Error)
      → validate_args w.quote ref args r ≡ e
      → Secret server t
      → Failing
          (λ e. carries e.message t ≡ false)
          (after_validation w cfg ref args id name server e).0
  validation-hides id name server t r none v s = connect-hides id name server t _ _ s
  validation-hides id name server t (fail f) (some e) v s = grind arith
  validation-hides id name server t (ok none) (some e) v s = grind arith
  validation-hides id name server t (ok (some tool)) (some e) v s =
      ground (arith, arguments-carries tool (validate w.quote tool.input_schema args) t e)

  -- No failure of a call that names a configured server carries, in the text that comes from
  -- downstream, a header or environment value of that server that is masked and has no asterisk.
  pub call_live-hides :
      (id name : Str) (server : ServerConfig) (t : Str)
      → split_tool_ref ref ≡ some (id, name)
      → server_lookup cfg id ≡ some server
      → Secret server t
      → Failing (λ e. carries e.message t ≡ false) (call_live w cfg ref args).0
  unfolding call_live
  call_live-hides id name server t n c s =
      subst (λ p. Failing (λ e. carries e.message t ≡ false) (after_split w cfg ref args p).0)
        (sym n)
        (subst
          (λ o.
            Failing (λ e. carries e.message t ≡ false) (after_lookup w cfg ref args id name o).0)
          (sym c)
          (if_case {A = Answer CallResult × List Contact}
            (λ r. Failing (λ e. carries e.message t ≡ false) r.0) server.enabled
            (λ _. validation-hides id name server t (w.get_tool ref) _ refl s) (λ _. refl)))

  -- What a successful call shows of the reply that it got, whose tool and arguments `Returned` tells.
  pub record Shows (budget : ℤ) (r : CallResult) : Type 0 where
    pub got : Returned r
    pub notice : Notice
    pub told : r.notices ≡ notice_text w.format_int notice
    pub honest :
        Honest w.marshal w.to_valid_utf8 budget (normalize_call_result got.reply) (r.result, notice)

  shows :
      (c : Config) (r : CallResult) (got : Returned r)
      → cfg ≡ some c
      → Honest w.marshal w.to_valid_utf8 c.budgets.call_tool_max_result_bytes
          (normalize_call_result got.reply)
          (apply_call_budget w.marshal w.to_valid_utf8 cfg (normalize_call_result got.reply))
      → Shows c.budgets.call_tool_max_result_bytes r
  shows c r got e h =
      let out = apply_call_budget w.marshal w.to_valid_utf8 cfg (normalize_call_result got.reply) in
      record {
        got = got;
        notice = out.1;
        told = got.noticed;
        honest =
            subst
              (λ v.
                Honest w.marshal w.to_valid_utf8 c.budgets.call_tool_max_result_bytes
                  (normalize_call_result got.reply) (v, out.1))
              (sym got.payload) h;
      }

  -- With a configuration, a successful call shows the reply that the named tool gave to the
  -- arguments: whole and without a notice exactly when the budget is off, the reply cannot be encoded
  -- or its encoding fits, and else cut to the limit as the notice among the result's notices says
  -- (`Honest`). This holds if encoding/json writes arrays as bracketed lists with commas, and
  -- dropping invalid UTF-8 does not lengthen a text.
  pub call_live-within_budget :
      (c : Config) (r : CallResult)
      → cfg ≡ some c
      → ((t : Str) → length (w.to_valid_utf8 t) ≤ length t)
      → MarshalsArrays w.marshal
      → (call_live w cfg ref args).0 ≡ done r
      → Shows c.budgets.call_tool_max_result_bytes r
  call_live-within_budget c r e shrinks writes h =
      let got : Returned r = subst Reported h call_live-Reported in
      shows c r got e (
        subst
          (λ o.
            Honest w.marshal w.to_valid_utf8 c.budgets.call_tool_max_result_bytes
              (normalize_call_result got.reply)
              (apply_call_budget w.marshal w.to_valid_utf8 o (normalize_call_result got.reply)))
          (sym e)
          (call_budget-Honest w.marshal w.to_valid_utf8 c (normalize_call_result got.reply) shrinks
            writes))
