-- ===== src/Search/Tokens.antt =====
-- internal/search/lexical.go: the tokens of a text and the weighted fields of a tool. `Bm25` adds to
-- `Scores` the operations and the constants of this file. Texts are taken to be ASCII, a byte above
-- 127 being part of a word.
use ozy.Json.{Value, as_obj, as_str}
use ozy.Catalog.{Tool}
use ozy.Search.{Scores}
use ozy.Common.{
  leb, if◌then◌else◌, Str, codes, str_eq, length, filter, Map, lookup, to_lower, ℕ, Bool, ◌&&◌,
  ◌||◌, Option, none, some, List, [], ◌∷◌, ◌++◌,
}

pub record Bm25 (S : Scores) : Type 0 where
  pub mul : S.Score → S.Score → S.Score
  pub log : S.Score → S.Score
  pub max : S.Score → S.Score → S.Score
  pub boost_tool_ref : S.Score
  pub boost_downstream_name : S.Score
  pub boost_title : S.Score
  pub boost_capability_alias : S.Score
  pub boost_server_id : S.Score
  pub boost_description : S.Score
  pub boost_schema_field_name : S.Score
  pub boost_schema_description : S.Score
  pub bm25_k1 : S.Score
  pub bm25_b : S.Score
  pub half : S.Score
  pub reason_idf_floor : S.Score

abbrev pub is_word : ℕ → Bool
is_word c = (leb 97 c && leb c 122) || ((leb 48 c && leb c 57) || leb 128 c)

abbrev cons_first : ℕ → List Str → List Str
cons_first c [] = (c ∷ []) ∷ []
cons_first c (part ∷ parts) = (c ∷ part) ∷ parts

-- the texts between the separators, the empty ones included
unfoldable pub pieces : Str → List Str
pieces [] = [] ∷ []
pieces (c ∷ s) = let rest = pieces s in if is_word c then cons_first c rest else [] ∷ rest

-- the empty pieces, which strings.FieldsFunc leaves out, are shorter than two bytes
unfoldable pub tokenize : Str → List Str
unfolding pieces
tokenize text = filter (λ p. leb 2 (length p)) (pieces (to_lower text))

abbrev description_of : Option Str → List Str
description_of none = []
description_of (some d) = if str_eq d [] then [] else d ∷ []

abbrev property_text : Option (Map Value) → List Str
property_text none = []
property_text (some fields) = description_of (as_str (lookup (codes "description") fields))

-- the loop of `extractSchemaText`
unfoldable pub schema_text : Map Value → List Str × List Str
schema_text [] = ([], [])
schema_text ((name, value) ∷ props) =
    let (names, descriptions) = schema_text props in
    (name ∷ names, property_text (as_obj (some value)) ++ descriptions)

abbrev text_of : Option (Map Value) → List Str × List Str
text_of none = ([], [])
text_of (some props) = schema_text props

unfoldable pub extract_schema_text : Map Value → List Str × List Str
unfolding schema_text
extract_schema_text schema = text_of (as_obj (lookup (codes "properties") schema))

-- `strings.Join(parts, sep)`
abbrev pub join_with : Str → List Str → Str
join_with sep [] = []
join_with sep (s ∷ []) = s
join_with sep (s ∷ t ∷ ts) = s ++ (sep ++ join_with sep (t ∷ ts))

module _ (S : Scores) (B : Bm25 S) where
  open S use {Score}

  pub record FieldTokens : Type 0 where
    pub name : Str
    pub weight : Score
    pub tokens : List Str

  abbrev field : Str → Score → Str → List FieldTokens
  field name weight text =
      if str_eq text []
      then []
      else record { name = name; weight = weight; tokens = tokenize text } ∷ []

  abbrev joined_field : Str → Score → List Str → List FieldTokens
  joined_field name weight [] = []
  joined_field name weight (t ∷ ts) =
      record { name = name; weight = weight; tokens = tokenize (join_with (codes " ") (t ∷ ts)) }
      ∷ []

  abbrev alias_fields : List Str → List FieldTokens
  alias_fields [] = []
  alias_fields (alias ∷ aliases) =
      field (codes "capabilityAlias") B.boost_capability_alias alias ++ alias_fields aliases

  unfoldable pub extract_fields : Tool → List FieldTokens
  unfolding tokenize extract_schema_text
  extract_fields tool =
      let (names, descriptions) = extract_schema_text tool.input_schema in
      field (codes "toolRef") B.boost_tool_ref tool.tool_ref
      ++ (field (codes "downstreamToolName") B.boost_downstream_name tool.downstream_tool_name
          ++ (field (codes "title") B.boost_title tool.title
              ++ (field (codes "serverID") B.boost_server_id tool.server_id
                  ++ (field (codes "description") B.boost_description tool.description
                      ++ (alias_fields tool.capability_text
                          ++ (joined_field (codes "schemaFieldName") B.boost_schema_field_name names
                              ++ joined_field (codes "schemaDescription") B.boost_schema_description
                                  descriptions))))))

  -- all tokens of a tool, in the order of its fields
  abbrev pub tokens_of : List FieldTokens → List Str
  tokens_of [] = []
  tokens_of (f ∷ fs) = f.tokens ++ tokens_of fs
