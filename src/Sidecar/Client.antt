-- ===== src/Sidecar/Client.antt =====
-- internal/sidecar/client.go's operations on `call`, and semantic.go's adapter for the search engine.
-- The client is a record of `call` and `Available` over a world; the log is left out.
pub mod Degrades
use ozy.Sidecar.{
  Op, op_health, op_ready, op_upsert, op_delete, op_query, op_stats, UpsertItem, Request,
  no_payload, Hit, Response, Outcome, answered,
}
use ozy.Common.{
  if◌then◌else◌, Str, codes, str_eq, filter, ℕ, Bool, true, false, ◌&&◌, Option, none, some, List,
  [], ◌∷◌,
}

module _ (Score : Type 0) where
  pub record Caller (W : Type 0) : Type 0 where
    pub call : Op → Request → W → W × Outcome Score
    pub available : W → Bool

  -- an error of `call`, with the response that comes with a refusal, or of an operation
  pub data CallError : Type 0 where
    refused : Op → Str → CallError
    transport : Outcome Score → CallError
    download_incomplete : Str → CallError

  pub record HealthResult : Type 0 where
    pub ok : Bool
    pub available : Bool
    pub model : Str
    pub dim : ℕ
    pub backend : Str
    pub vector_count : ℕ
    pub err : Option CallError

  abbrev pub unhealthy : CallError → HealthResult
  unhealthy e = record {
    ok = false;
    available = false;
    model = [];
    dim = 0;
    backend = [];
    vector_count = 0;
    err = some e;
  }

  abbrev pub healthy_as : Response Score → HealthResult
  healthy_as r = record {
    ok = true;
    available = true;
    model = r.model;
    dim = r.dim;
    backend = r.backend;
    vector_count = r.vector_count;
    err = none;
  }

  -- `call` returns an error with a response that is not ok
  unfoldable pub health_result : Outcome Score → HealthResult
  health_result (answered r) = if r.ok then healthy_as r else unhealthy (refused op_health r.error)
  health_result out = unhealthy (transport out)

  unfoldable pub ready_result : Outcome Score → HealthResult
  ready_result (answered r) =
      if r.ok
      then healthy_as r
      else if str_eq r.error_kind (codes "model_download_incomplete")
      then unhealthy (download_incomplete r.error)
      else unhealthy (refused op_ready r.error)
  ready_result out = unhealthy (transport out)

  -- a result with a nil error, or the error
  pub data Reply {ℓ} (A : Type ℓ) : Type ℓ where
    reply : A → Reply A
    failed : CallError → Reply A

  unfoldable pub checked {ℓ} : {A : Type ℓ} → Op → (Response Score → A) → Outcome Score → Reply A
  checked op f (answered r) = if r.ok then reply (f r) else failed (refused op r.error)
  checked op f out = failed (transport out)

  pub record UpsertResult : Type 0 where
    pub upserted : ℕ
    pub skipped : ℕ
    pub errors : List Str

  pub record StatsResult : Type 0 where
    pub backend : Str
    pub model : Str
    pub dim : ℕ
    pub vector_count : ℕ
    pub tool_count : ℕ

  module _ {W : Type 0} (c : Caller W) where
    unfoldable pub health : W → W × HealthResult
    unfolding health_result
    health w = let (w', out) = c.call op_health no_payload w in (w', health_result out)

    unfoldable pub ready : W → W × HealthResult
    unfolding ready_result
    ready w = let (w', out) = c.call op_ready no_payload w in (w', ready_result out)

    unfoldable pub upsert : List UpsertItem → W → W × Reply UpsertResult
    unfolding checked
    upsert [] w = (w, reply (record { upserted = 0; skipped = 0; errors = [] }))
    upsert (item ∷ items) w =
        let (w', out) = c.call op_upsert (record no_payload { items = item ∷ items }) w in
        (
          w',
          checked op_upsert
              (λ r. record { upserted = r.upserted; skipped = r.skipped; errors = r.errors }) out,
        )

    unfoldable pub delete_refs : List Str → W → W × Reply ℕ
    unfolding checked
    delete_refs [] w = (w, reply 0)
    delete_refs (ref ∷ refs) w =
        let (w', out) = c.call op_delete (record no_payload { tool_refs = ref ∷ refs }) w in
        (w', checked op_delete (λ r. r.deleted) out)

    -- the filter of a query by its server's id; an empty one is sent as null
    abbrev pub wire_filter : Str → Option Str
    wire_filter server_id = if str_eq server_id [] then none else some server_id

    unfoldable pub query : Str → ℕ → Str → W → W × Reply (List (Hit Score))
    unfolding checked
    query text k server_id w =
        let (w', out) =
          c.call op_query (record no_payload { text = text; k = k; filter = wire_filter server_id })
            w in
        (w', checked op_query (λ r. r.hits) out)

    unfoldable pub stats : W → W × Reply StatsResult
    unfolding checked
    stats w =
        let (w', out) = c.call op_stats no_payload w in
        (
          w',
          checked op_stats
              (λ r. record {
                backend = r.backend;
                model = r.model;
                dim = r.dim;
                vector_count = r.vector_count;
                tool_count = r.tool_count;
              })
              out,
        )

    -- `SemanticAdapter`: the sticky flag, beside the world
    unfoldable pub adapter_available : Bool → W → Bool
    adapter_available sticky w = sticky && c.available w

    abbrev pub settled :
        Bool → W × Reply (List (Hit Score)) → (Bool × W) × Option (List (Hit Score))
    settled sticky (w, reply hits) = ((sticky, w), some hits)
    settled sticky (w, failed e) = ((false, w), none)

    -- `none` stands for nil hits, which come with a nil error
    unfoldable pub adapter_query : Str → ℕ → Str → Bool × W → (Bool × W) × Option (List (Hit Score))
    unfolding adapter_available query
    adapter_query text k server_id (sticky, w) =
        if adapter_available sticky w
        then settled sticky (query text k server_id w)
        else ((sticky, w), none)
