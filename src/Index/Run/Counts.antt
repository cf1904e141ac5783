-- ===== src/Index/Run/Counts.antt =====
-- internal/index/index.go: when the summary of a run says that it succeeded.
use ozy.Catalog.{Time}
use ozy.Config.{Config}
use ozy.Index.{EmbedItem, Summary, Store, ListReply, Codec}
use ozy.Index.Run.{Sink}
use ozy.Common.{Str, ℕ, ◌≤◌, ◌≡◌, ◌⊎◌, true, false, Option, some, List, [], ◌∷◌}

-- The flush changes neither the verdict so far nor the counts of servers and tools.
abbrev pub SameCounts : Summary → Summary → Type 0
SameCounts s t =
    (t.is_ok ≡ s.is_ok)
    × (t.servers_reached ≡ s.servers_reached)
    × (t.tools_indexed ≡ s.tools_indexed)

module _ {V : Type 0} (sink : Sink V) where
  -- What the sink holds when it is asked for its count: the items were accepted, and after that the
  -- references deleted, if there were any.
  pub record Counted (items : List EmbedItem) (before : V) (vectors : ℕ) (after : V) : Type 0 where
    pub accepted : (k : ℕ) × ((sink.upsert items before).0 ≡ some k)
    pub asked : V
    pub emptied :
        (asked ≡ (sink.upsert items before).1)
        ⊎ ((ref : Str) × (refs : List Str) × (asked
              ≡ (sink.delete_vectors (ref ∷ refs) (sink.upsert items before).1).1))
    pub answered : sink.vector_count asked ≡ some vectors
    pub kept : after ≡ (sink.persist asked).1

  -- A flush either leaves the count of vectors as it was, or makes it the sink's answer.
  abbrev LeavesCount : List EmbedItem → V → Summary → Summary × V → Type 0
  LeavesCount items before s r =
      (r.0.vector_count ≡ s.vector_count) ⊎ Counted items before r.0.vector_count r.1

  module _ (items : List EmbedItem) (before : V)
      (accepted : (k : ℕ) × ((sink.upsert items before).0 ≡ some k)) where
    -- where the sink stands after the deletion, if there was one
    abbrev Emptied : V → Type 0
    Emptied v =
        (v ≡ (sink.upsert items before).1)
        ⊎ ((ref : Str) × (refs : List Str) × (v
              ≡ (sink.delete_vectors (ref ∷ refs) (sink.upsert items before).1).1))

  -- What a successful verdict after the embedding says: nothing was to be embedded, or the sink's
  -- own count was enough.
  abbrev pub Embedded : List EmbedItem → V → Summary → Summary × V → Type 0
  Embedded items v before (s, after) =
      (before.is_ok ≡ true)
      × (s.servers_reached ≡ before.servers_reached)
      × (s.tools_indexed ≡ before.tools_indexed)
      × ((sink.available ≡ false)
          ⊎ ((s.tools_indexed ≡ 0)
              ⊎ ((s.tools_indexed ≤ s.vector_count) × Counted items v s.vector_count after)))

-- The summary with which a run starts.
abbrev nothing_yet : Summary
nothing_yet = record {
  is_ok = true;
  servers_reached = 0;
  servers_skipped = 0;
  servers_failed = 0;
  tools_indexed = 0;
  embedded_count = 0;
  vector_count = 0;
  errors = [];
}

module _ {W S : Type 0} (store : Store W) (codec : Codec) (list : S → ℕ → ListReply) (now : Time)
    (cfg : Option Config) where
  -- What the stamp of the time keeps.
  abbrev Stamped : Summary → Summary → Type 0
  Stamped s t = (t.is_ok ≡ true → s.is_ok ≡ true) × (t.servers_reached ≡ s.servers_reached)
