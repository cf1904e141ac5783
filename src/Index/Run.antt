-- ===== src/Index/Run.antt =====
-- internal/index/index.go: the flush of the embeddings and `Run`. Go's clock is an argument.
pub mod Counts
mod Totals
use ozy.Contract.{
  Error, Message, config_error, semantic_search_unavailable, index_time_not_persisted,
  sink_upsert_failed, sink_delete_failed, sink_persist_failed, vectors_missing,
}
use ozy.Catalog.{Time, ServerStatus, online, offline, unknown, Reply, ok, fail}
use ozy.Config.{zero_server, discovery_timeout, get_or, Config, ServerConfig}
use ozy.Downstream.{Connection}
use ozy.Index.{
  EmbedItem, Summary, Store, ListReply, Codec, failure, report, report_fatal, record_server,
  index_session,
}
use ozy.Index.Reconcile.{Learned, offline_error, reconcile}
use ozy.Common.{
  ltb, ◌==◌, if◌then◌else◌, Str, length, lookup, insert, ℕ, ◌+◌, Bool, true, false, ◌&&◌, ◌||◌,
  Option, none, some, List, [], ◌∷◌, ◌++◌,
}

-- `EmbeddingSink`, over the state of the sink
pub record Sink (V : Type 0) : Type 0 where
  pub available : Bool
  pub upsert : List EmbedItem → V → Option ℕ × V
  pub delete_vectors : List Str → V → Bool × V
  pub vector_count : V → Option ℕ
  pub persist : V → Bool × V

abbrev pub semantic_error : Message → Error
semantic_error message = failure semantic_search_unavailable [] true message

abbrev pub configured : Option Config → Str → ServerConfig
configured none id = zero_server
configured (some cfg) id = get_or zero_server (lookup id cfg.mcp)

module _ {V : Type 0} (sink : Sink V) where
  -- the end of `flushEmbeddings`
  abbrev pub persisted : Summary → Bool × V → Summary × V
  persisted s (true, v) = (s, v)
  persisted s (false, v) = (report (semantic_error sink_persist_failed) s, v)

  abbrev pub counted : Option ℕ → Summary → Summary
  counted none s = s
  counted (some n) s = record s { vector_count = n }

  abbrev pub after_delete : Summary → Bool × V → Summary × V
  after_delete s (false, v) = (report (semantic_error sink_delete_failed) s, v)
  after_delete s (true, v) = persisted (counted (sink.vector_count v) s) (sink.persist v)

  abbrev pub delete_flushed : List Str → Summary → V → Summary × V
  delete_flushed [] s v = after_delete s (true, v)
  delete_flushed (ref ∷ refs) s v = after_delete s (sink.delete_vectors (ref ∷ refs) v)

  abbrev pub after_upsert : List Str → Summary → Option ℕ × V → Summary × V
  after_upsert deleted s (none, v) = (report (semantic_error sink_upsert_failed) s, v)
  after_upsert deleted s (some n, v) = delete_flushed deleted (record s { embedded_count = n }) v

  unfoldable pub flush_embeddings : List EmbedItem → List Str → Summary → V → Summary × V
  flush_embeddings embedded deleted s v = after_upsert deleted s (sink.upsert embedded v)

  -- the guard against tools that are indexed and not embedded
  unfoldable pub guard_vectors : Summary → Summary
  guard_vectors s =
      if ltb 0 s.tools_indexed && ltb s.vector_count s.tools_indexed
      then report_fatal (semantic_error (vectors_missing s.vector_count s.tools_indexed)) s
      else s

  unfoldable pub embed : List EmbedItem → List Str → Summary → V → Summary × V
  unfolding flush_embeddings guard_vectors
  embed embedded deleted s v =
      if sink.available
      then (let (s2, v2) = flush_embeddings embedded deleted s v in (guard_vectors s2, v2))
      else (s, v)

-- the `switch` on the summary, less the instructions
unfoldable pub judge : Summary → Summary
judge s =
    if (s.servers_reached == 0) || ((s.tools_indexed == 0) && ltb 0 (length s.errors))
    then record s { is_ok = false }
    else s

module _ {W S : Type 0} (store : Store W) (codec : Codec) (list : S → ℕ → ListReply) (now : Time)
    (cfg : Option Config) where
  abbrev pub not_reached : Str → ServerStatus → Learned → Learned
  not_reached id status l = record l { degraded = insert id status l.degraded }

  -- what a listing adds to what the run has learned
  abbrev pub learn : Str → List EmbedItem → Option (List Str) → Learned → Learned
  learn id items (some refs) l = record l {
    listed = insert id refs l.listed;
    embedded = l.embedded ++ items;
  }
  learn id items none l = record l {
    degraded = insert id offline l.degraded;
    embedded = l.embedded ++ items;
  }

  -- the `result.Error` branch, and the one without a session
  abbrev pub visit_failed : Str → Error → Learned → Summary → W → Learned × Summary × W
  visit_failed id e l s w =
      let (s2, w2) =
        record_server store id offline
          (report e (record s { servers_failed = s.servers_failed + 1 }), w) in
      (not_reached id offline l, s2, w2)

  abbrev pub visit_session : Str → S → Learned → Summary → W → Learned × Summary × W
  visit_session id session l s w =
      let server = configured cfg id in
      let (s2, w2) =
        record_server store id online (record s { servers_reached = s.servers_reached + 1 }, w) in
      let (s3, items, refs, w3) =
        index_session store codec id server now (list session (discovery_timeout server)) s2 w2 in
      (learn id items refs l, s3, w3)

  abbrev pub visit_open :
      Str → Option Error → Option S → Learned → Summary → W → Learned × Summary × W
  visit_open id (some e) session l s w = visit_failed id e l s w
  visit_open id none none l s w = visit_failed id (offline_error id) l s w
  visit_open id none (some session) l s w = visit_session id session l s w

  -- the body of the loop of `Run`
  unfoldable pub visit : Connection S → Learned → Summary → W → Learned × Summary × W
  visit c l s w =
      if c.skipped
      then (let (s2, w2) =
            record_server store c.server_id unknown
              (record s { servers_skipped = s.servers_skipped + 1 }, w) in
          (not_reached c.server_id unknown l, s2, w2))
      else visit_open c.server_id c.error c.session l s w

  unfoldable pub visit_all : List (Connection S) → Learned → Summary → W → Learned × Summary × W
  visit_all [] l s w = (l, s, w)
  visit_all (c ∷ cs) l s w = let (l2, s2, w2) = visit c l s w in visit_all cs l2 s2 w2

  abbrev pub stamp : Summary → Reply (Unit {0}) → Summary
  stamp s (ok _) = s
  stamp s (fail e) = report_fatal (failure config_error [] true index_time_not_persisted) s

  -- `SetLastIndexedAt`, if a server was reached
  abbrev pub stamp_time : Summary × W → Summary × W
  stamp_time (s, w) =
      let (reply, w2) = store.set_last_indexed_at now w in
      if ltb 0 s.servers_reached then (stamp s reply, w2) else (s, w)

  unfoldable pub run : {V : Type 0} → Sink V → List (Connection S) → W × V → Summary × W × V
  run sink connections (w, v) =
      let (l, s, w2) =
        visit_all connections (record { listed = []; degraded = []; embedded = [] })
          (record {
            is_ok = true;
            servers_reached = 0;
            servers_skipped = 0;
            servers_failed = 0;
            tools_indexed = 0;
            embedded_count = 0;
            vector_count = 0;
            errors = [];
          })
          w in
      let (deleted, s3, w3) = reconcile store cfg l (s, w2) in
      let (s4, w4) = stamp_time (judge s3, w3) in
      let (s5, v2) = embed sink l.embedded deleted s4 v in (s5, w4, v2)
