-- ===== src/Index/Run/Totals.antt =====
-- internal/index/index.go: what a run counts, against the items that it hands to the sink.
use ozy.Catalog.{Time, Tool, ServerStatus, Reply, ok, fail}
use ozy.Config.{Config, ServerConfig, discovery_timeout}
use ozy.Contract.{Error}
use ozy.Downstream.{Connection}
use ozy.Index.{
  EmbedItem, Summary, Store, ListReply, list_error, tools_listed, ListedTool, Codec, recorded,
  record_server, tool_put, index_tool, index_tools, index_session, normalize_tool,
}
use ozy.Index.Reconcile.{
  Learned, Action, keep, remove, lower, action, lowered, act, lower_all, to_delete, deleted_with,
  delete_vanished, reconcile_tools, reconcile, offline_error,
}
use ozy.Index.Run.{
  configured, learn, visit_failed, visit_session, visit_open, visit, visit_all, judge, stamp,
  stamp_time,
}
use ozy.Common.{
  if_case, ltb, Str, length, length-append, ℕ, ◌+◌, ◌≡◌, refl, ◌∙◌, Option, none, some, List, [],
  ◌∷◌, arith,
}

-- The counts of tools and of vectors are the same in two summaries.
abbrev pub SameTally : Summary → Summary → Type 0
SameTally s t = (t.tools_indexed ≡ s.tools_indexed) × (t.vector_count ≡ s.vector_count)

-- A summary counts the tools of a number of items, and no vectors yet.
abbrev pub Tally : ℕ → Summary → Type 0
Tally n s = (s.tools_indexed ≡ n) × (s.vector_count ≡ 0)

moved : {a b c d n : ℕ} → (a ≡ b) × (c ≡ d) → (b ≡ n) × (d ≡ 0) → (a ≡ n) × (c ≡ 0)
moved same h = (same.0 ∙ h.0, same.1 ∙ h.1)

module _ {W : Type 0} (store : Store W) where
  recorded-Same :
      (id : Str) (s : Summary) (r : Reply (Unit {0})) → SameTally s (recorded store id s r)
  recorded-Same id s (ok u) = (refl, refl)
  recorded-Same id s (fail e) = (refl, refl)

  record_server-Same :
      (id : Str) (status : ServerStatus) (s : Summary) (w : W)
      → SameTally s (record_server store id status (s, w)).0
  unfolding record_server
  record_server-Same id status s w =
      recorded-Same id s (store.put_server (record { id = id; status = status }) w).0

  -- What a part of an index session does to the counts.
  abbrev Adds : Summary → Summary × List EmbedItem → Type 0
  Adds s r =
      (r.0.tools_indexed ≡ s.tools_indexed + length r.1) × (r.0.vector_count ≡ s.vector_count)

  tool_put-Adds :
      (id : Str) (t : Tool) (s : Summary) (r : Reply (Unit {0})) → Adds s (tool_put store id t s r)
  tool_put-Adds id t s (ok u) = (refl, refl)
  tool_put-Adds id t s (fail e) = (omega arith, refl)

  index_tool-Adds :
      (id : Str) (tool : ListedTool) (o : Option Tool) (s : Summary) (w : W)
      → Adds s ((index_tool store id tool o s w).0, (index_tool store id tool o s w).1)
  index_tool-Adds id tool none s w = (omega arith, refl)
  index_tool-Adds id tool (some t) s w = tool_put-Adds id t s (store.put_tool t w).0

  index_tools-Adds :
      (c : Codec) (id : Str) (now : Time) (tools : List ListedTool) (s : Summary) (w : W)
      → Adds s ((index_tools store c id now tools s w).0, (index_tools store c id now tools s w).1)
  index_tools-Adds c id now [] s w = (omega arith, refl)
  index_tools-Adds c id now (tool ∷ tools) s w =
      let r = index_tool store id tool (normalize_tool c id now tool) s w in
      let here = index_tool-Adds id tool (normalize_tool c id now tool) s w in
      let later = index_tools-Adds c id now tools r.0 r.2 in
      (
        omega (
          arith,
          here.0,
          later.0,
          length-append r.1 (index_tools store c id now tools r.0 r.2).1,
        ),
        later.1 ∙ here.1,
      )

  index_session-Adds :
      (c : Codec) (id : Str) (server : ServerConfig) (now : Time) (r : ListReply) (s : Summary)
      (w : W)
      → Adds s (
        (index_session store c id server now r s w).0,
        (index_session store c id server now r s w).1,
      )
  unfolding index_session
  index_session-Adds c id server now (list_error e) s w = (omega arith, refl)
  index_session-Adds c id server now (tools_listed tools) s w = index_tools-Adds c id now tools s w

  lowered-Same : (t : Tool) (s : Summary) (r : Reply (Unit {0})) → SameTally s (lowered store t s r)
  lowered-Same t s (ok u) = (refl, refl)
  lowered-Same t s (fail e) = (refl, refl)

  act-Same :
      (t : Tool) (a : Action) (n : ℕ) (s : Summary × W) → Tally n s.0 → Tally n (act store t a s).0
  act-Same t keep n s h = h
  act-Same t remove n s h = h
  act-Same t (lower status) n (s, w) h = moved (lowered-Same t s _) h

  lower_all-Same :
      (cfg : Option Config) (l : Learned) (ts : List Tool) (n : ℕ) (s : Summary × W)
      → Tally n s.0
      → Tally n (lower_all store cfg l ts s).0
  lower_all-Same cfg l [] n s h = h
  lower_all-Same cfg l (t ∷ ts) n s h =
      lower_all-Same cfg l ts n (act store t (action cfg l t) s) (act-Same t (action cfg l t) n s h)

  deleted_with-Same :
      (refs : List Str) (n : ℕ) (s : Summary) (r : Reply (Unit {0}) × W)
      → Tally n s
      → Tally n (deleted_with store refs s r).1
  deleted_with-Same refs n s (ok u, w) h = h
  deleted_with-Same refs n s (fail e, w) h = h

  delete_vanished-Same :
      (refs : List Str) (n : ℕ) (s : Summary × W)
      → Tally n s.0
      → Tally n (delete_vanished store refs s).1
  delete_vanished-Same [] n (s, w) h = h
  delete_vanished-Same (ref ∷ refs) n (s, w) h = deleted_with-Same _ n s _ h

  tools-Same :
      (cfg : Option Config) (l : Learned) (r : Reply (List Tool)) (n : ℕ) (s : Summary × W)
      → Tally n s.0
      → Tally n (reconcile_tools store cfg l r s).1
  tools-Same cfg l (fail e) n (s, w) h = h
  tools-Same cfg l (ok ts) n s h =
      delete_vanished-Same (to_delete cfg l ts) n (lower_all store cfg l ts s)
        (lower_all-Same cfg l ts n s h)

  -- Reconciling the catalog changes neither count.
  pub reconcile-Same :
      (cfg : Option Config) (l : Learned) (n : ℕ) (s : Summary) (w : W)
      → Tally n s
      → Tally n (reconcile store cfg l (s, w)).1
  unfolding reconcile
  reconcile-Same cfg l n s w h = tools-Same cfg l (store.tools w) n (s, w) h

pub judge-Same : (s : Summary) → SameTally s (judge s)
unfolding judge
judge-Same s = ground arith

module _ {W S : Type 0} (store : Store W) (codec : Codec) (list : S → ℕ → ListReply) (now : Time)
    (cfg : Option Config) where
  learn-length :
      (id : Str) (items : List EmbedItem) (refs : Option (List Str)) (l : Learned)
      → length (learn store codec list now cfg id items refs l).embedded
        ≡ length l.embedded + length items
  learn-length id items none l = length-append l.embedded items
  learn-length id items (some refs) l = length-append l.embedded items

  -- The summary counts the items that are to be embedded.
  abbrev pub InStep : Learned × Summary × W → Type 0
  InStep r = Tally (length r.0.embedded) r.1

  open_failed :
      (id : Str) (e : Error) (l : Learned) (s : Summary) (w : W)
      → Tally (length l.embedded) s
      → InStep (visit_failed store codec list now cfg id e l s w)
  open_failed id e l s w h = moved (record_server-Same store id _ _ w) h

  session-InStep :
      (id : Str) (session : S) (l : Learned) (s : Summary) (w : W)
      → Tally (length l.embedded) s
      → InStep (visit_session store codec list now cfg id session l s w)
  session-InStep id session l s w h =
      let server = configured cfg id in
      let r = record_server store id _ (record s { servers_reached = s.servers_reached + 1 }, w) in
      let same =
        record_server-Same store id _ (record s { servers_reached = s.servers_reached + 1 }) w in
      let adds =
        index_session-Adds store codec id server now (list session (discovery_timeout server)) r.0
          r.1 in
      (omega (arith, h.0, same.0, adds.0, learn-length id _ _ l), adds.1 ∙ (same.1 ∙ h.1))

  open-InStep :
      (id : Str) (e : Option Error) (session : Option S) (l : Learned) (s : Summary) (w : W)
      → Tally (length l.embedded) s
      → InStep (visit_open store codec list now cfg id e session l s w)
  open-InStep id (some e) session l s w h = open_failed id e l s w h
  open-InStep id none none l s w h = open_failed id (offline_error id) l s w h
  open-InStep id none (some session) l s w h = session-InStep id session l s w h

  visit-InStep :
      (c : Connection S) (l : Learned) (s : Summary) (w : W)
      → Tally (length l.embedded) s
      → InStep (visit store codec list now cfg c l s w)
  unfolding visit
  visit-InStep c l s w h =
      if_case InStep c.skipped (λ _. moved (record_server-Same store c.server_id _ _ w) h)
        (λ _. open-InStep c.server_id c.error c.session l s w h)

  -- After all servers were visited, as many tools are counted as items are to be embedded.
  pub visit_all-InStep :
      (cs : List (Connection S)) (l : Learned) (s : Summary) (w : W)
      → Tally (length l.embedded) s
      → InStep (visit_all store codec list now cfg cs l s w)
  unfolding visit_all
  visit_all-InStep [] l s w h = h
  visit_all-InStep (c ∷ cs) l s w h =
      let r = visit store codec list now cfg c l s w in
      visit_all-InStep cs r.0 r.1 r.2 (visit-InStep c l s w h)

  stamp-Same :
      (s : Summary) (r : Reply (Unit {0})) → SameTally s (stamp store codec list now cfg s r)
  stamp-Same s (ok u) = (refl, refl)
  stamp-Same s (fail e) = (refl, refl)

  pub stamp_time-Same :
      (s : Summary) (w : W) → SameTally s (stamp_time store codec list now cfg (s, w)).0
  stamp_time-Same s w =
      if_case {A = Summary × W} (λ r. SameTally s r.0) (ltb 0 s.servers_reached)
        (λ _. stamp-Same s _) (λ _. (refl, refl))
