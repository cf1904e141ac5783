-- ===== src/Broker/Cache/Tests.antt =====
-- A cached broker over one that counts its calls.
use mathlib.Core.Path.{subst}
use ozy.Json.{Value, num}
use ozy.Catalog.{Tool, ok, fresh, online}
use ozy.Contract.{CallResult}
use ozy.Broker.{Answer, done, nothing, panicked}
use ozy.Broker.Cache.{
  Limits, Env, Inner, State, stamped, key_bytes, generation, find_tool, describe_tool, call_tool,
}
use ozy.Broker.Cache.Capacity.{Fits, capacity}
use ozy.Broker.Cache.Safety.{
  Observed, Request, calling, finding, through_cache, directly, session_effects,
}
use ozy.Broker.Cache.Hits.{live_entry, repeat_served}
use ozy.Broker.Cache.Kinds.{
  Kinded, Sound, NoCollision, AskedFind, AskedDescribe, AskedCall, no_panic,
}
use ozy.Common.{
  if◌then◌else◌, str_eq, sym, ◌∙◌, take, List, ◌∷◌, Str, codes, Map, lookup, ℕ, ◌+◌, ◌≡◌, refl, ◌≢◌,
  Bool, true, false, Option, none, some, [], arith,
}

abbrev tool_with : Bool → Tool
tool_with read_only = record {
  tool_ref = codes "github.search";
  server_id = codes "github";
  downstream_tool_name = codes "search";
  title = [];
  description = [];
  input_schema = [];
  capability_text = [];
  server_status = online;
  callable_now = true;
  read_only = read_only;
  last_indexed_at = 0;
  schema_hash = codes "h";
  freshness = fresh;
}

abbrev answer : CallResult
answer = record {
  ok = true;
  tool_ref = codes "github.search";
  result = num 7;
  result_summary = [];
  notices = [];
  cached_age_seconds = none;
}

-- The world counts the operations that reach the broker.
abbrev counting : Inner ℕ Str Str
counting = record {
  find_tool = λ q n. (done q, n + 1);
  describe_tool = λ r n. (done r, n + 1);
  call_tool = λ r args n. (done answer, n + 1);
}

abbrev silent : Inner ℕ Str Str
silent = record {
  find_tool = λ q n. (nothing, n + 1);
  describe_tool = λ r n. (nothing, n + 1);
  call_tool = λ r args n. (nothing, n + 1);
}

abbrev one_entry : Limits
one_entry = record { ttl = 300_000_000_000; max = 1 }

abbrev at : ℕ → Env
at t = record { at_get = t; at_serve = t; at_evict = t; at_put = t; pick = 0 }

abbrev empty : State ℕ Str Str
empty = record { entries = []; world = 0 }

abbrev same : Str → Str
same s = s

abbrev no_digits : ℕ → Str
no_digits n = []

abbrev no_args : Map Value → Option Str
no_args args = some (codes "{}")

abbrev run : Inner ℕ Str Str → Env → Bool → State ℕ Str Str → Answer CallResult × State ℕ Str Str
run inner env read_only s =
    call_tool same no_digits no_args one_entry inner env (ok (some (tool_with read_only)))
      (codes "github.search") [] s

-- The world counts what was looked at, and what was written.
abbrev writes : ℕ → Str → ℕ
writes n ref = if str_eq ref (codes "github.create") then n + 1 else n

abbrev writing : Inner (ℕ × ℕ) Str Str
writing = record {
  find_tool = λ q w. (done q, (w.0 + 1, w.1));
  describe_tool = λ r w. (done r, (w.0 + 1, w.1));
  call_tool = λ r args w. (done answer, (w.0 + 1, writes w.1 r));
}

true_ne_false : true ≢ false
true_ne_false h = cc

abbrev writing-Observed : Observed writing ℕ
writing-Observed = record {
  observe = λ w. w.1;
  effect = λ r args n. writes n r;
  reply = λ r args n. done answer;
  finds = λ q w. refl;
  describes = λ r w. refl;
  acts = λ r args w. refl;
  replies = λ r args w. refl;
}

-- A read-only call, made twice, and a write, made twice, with a search between them.
abbrev session : List (Env × Request)
session =
    (at 5, calling (ok (some (tool_with true))) (codes "github.search") [])
    ∷ (at 6, calling (ok (some (tool_with false))) (codes "github.create") [])
    ∷ (at 7, finding (ok (0, true)) (codes "issues"))
    ∷ (at 8, calling (ok (some (tool_with true))) (codes "github.search") [])
    ∷ (at 9, calling (ok (some (tool_with false))) (codes "github.create") [])
    ∷ []

abbrev untouched : State (ℕ × ℕ) Str Str
untouched = record { entries = []; world = (0, 0) }

search_has_no_effect : (n : ℕ) → writes n (codes "github.search") ≡ n
unfolding str_eq
search_has_no_effect n = refl

session_effects_example :
    ((through_cache same no_digits no_args one_entry writing session untouched).0
      ≡ (directly writing session (0, 0)).0)
    × ((through_cache same no_digits no_args one_entry writing session untouched).1.world.1
        ≡ (directly writing session (0, 0)).1.1)
session_effects_example =
    session_effects same no_digits no_args one_entry writing writing-Observed session untouched (
      λ h. search_has_no_effect,
      (
        λ h. absurd (true_ne_false (sym h)),
        (tt, (λ h. search_has_no_effect, (λ h. absurd (true_ne_false (sym h)), tt))),
      ),
    )

capacity_example :
    Fits one_entry
      (find_tool same no_digits no_args one_entry counting
        (at 5)
        (ok (0, true))
        (codes "github.search")
        empty).1
    × Fits one_entry
        (describe_tool same no_digits no_args one_entry counting
          (at 5)
          (ok (some (tool_with true)))
          (codes "github.search")
          empty).1
    × Fits one_entry (run counting (at 5) true empty).1
capacity_example =
    capacity same no_digits no_args one_entry counting (omega arith) (at 5) empty (ok (0, true))
      (ok (some (tool_with true))) (codes "github.search") [] (omega arith)

nothing_live : (k : Str) → live_entry {F = Str} {D = Str} 5 k [] ≡ none
unfolding lookup
nothing_live k = refl

repeat_served_example :
    ((run counting (at 5) true empty).0 ≡ done answer)
    × ((run counting (at 3_000_000_005) true (run counting (at 5) true empty).1).0
        ≡ done (stamped 3_000_000_005 5 answer))
    × ((run counting (at 3_000_000_005) true (run counting (at 5) true empty).1).1.world
        ≡ (run counting (at 5) true empty).1.world)
repeat_served_example =
    repeat_served same no_digits no_args one_entry counting (tool_with true) (codes "github.search")
      [] (codes "{}") refl refl (at 5) (at 3_000_000_005) empty answer (nothing_live _) refl
      (omega arith)

counting-Sound : Sound counting
counting-Sound = record {
  find_sound = λ q w e. grind arith;
  describe_sound = λ r w e. grind arith;
  call_sound = λ r args w e. grind arith;
}

-- A hash that keeps only the first bytes, and the texts that it keeps whole.
abbrev short_hash : Str → Str
short_hash = take 64

abbrev KeptWhole : Str → Type 0
KeptWhole x = short_hash x ≡ x

first_bytes-NoCollision : NoCollision short_hash KeptWhole
first_bytes-NoCollision x y h k e = sym h ∙ (e ∙ k)

some_injective : (g h : Str) → some g ≡ some h → g ≡ h
some_injective g h e = cc

short_find : AskedFind no_digits KeptWhole (ok (0, true)) (codes "r")
unfolding key_bytes generation
short_find gen e =
    subst (λ g. KeptWhole (key_bytes (codes "find" ∷ codes "r" ∷ g ∷ []))) (some_injective [] gen e)
      refl

short_describe : AskedDescribe KeptWhole (ok (some (tool_with true))) (codes "r")
unfolding key_bytes
short_describe = refl

short_call : AskedCall no_args KeptWhole (ok (some (tool_with true))) (codes "r") []
unfolding key_bytes
short_call text e =
    subst (λ t. KeptWhole (key_bytes (codes "call" ∷ codes "r" ∷ codes "h" ∷ t ∷ [])))
      (some_injective (codes "{}") text e) refl

no_panic_example :
    (((find_tool short_hash no_digits no_args one_entry counting
          (at 5)
          (ok (0, true))
          (codes "r")
          empty).0
        ≢ panicked)
      × Kinded short_hash KeptWhole
          (find_tool short_hash no_digits no_args one_entry counting
            (at 5)
            (ok (0, true))
            (codes "r")
            empty).1.entries)
    × (((describe_tool short_hash no_digits no_args one_entry counting
            (at 5)
            (ok (some (tool_with true)))
            (codes "r")
            empty).0
          ≢ panicked)
        × Kinded short_hash KeptWhole
            (describe_tool short_hash no_digits no_args one_entry counting
              (at 5)
              (ok (some (tool_with true)))
              (codes "r")
              empty).1.entries)
    × (((call_tool short_hash no_digits no_args one_entry counting
            (at 5)
            (ok (some (tool_with true)))
            (codes "r")
            []
            empty).0
          ≢ panicked)
        × Kinded short_hash KeptWhole
            (call_tool short_hash no_digits no_args one_entry counting
              (at 5)
              (ok (some (tool_with true)))
              (codes "r")
              []
              empty).1.entries)
no_panic_example =
    no_panic short_hash no_digits no_args one_entry counting KeptWhole first_bytes-NoCollision
      counting-Sound (at 5) empty tt (ok (0, true)) (ok (some (tool_with true))) (codes "r") []
      short_find short_describe short_call
