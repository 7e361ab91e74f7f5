-- ===== src/DbWriter/Adapter.antt =====
-- stream_consumer.py, `_build_adapter`: a row of a message becomes the tuple of the columns.
-- `datetime.fromisoformat`, `uuid.UUID` and `json.dumps` are parameters, err where they raise.
use hackathon_nu.Base.{ℕ, Option, none, some, List, [], ◌∷◌, string_eq, String}
use hackathon_nu.Base.Dict.{Dict, get}
use hackathon_nu.Base.Results.{Result, ok, ◌>>=◌}

-- The type of a column, as far as it is asked.
pub data ColumnType : Type 0 where
  datetime_column uuid_column jsonb_column other_column : ColumnType

-- A value of a message, or one that a converter has made; `other` is any other object.
pub data Value : Type 0 where
  null : Value
  text : String → Value
  datetime : ℕ → Value
  uuid : ℕ → Value
  other : ℕ → Value

pub record Parsers : Type 0 where
  pub from_iso_format : Value → Result ℕ
  pub to_uuid : Value → Result ℕ
  pub dump_json : Value → Result String

unfoldable pub convert_datetime : Parsers → Value → Result Value
convert_datetime p null = ok null
convert_datetime p (datetime t) = ok (datetime t)
convert_datetime p v = do t ← p.from_iso_format v; ok (datetime t)

unfoldable pub convert_uuid : Parsers → Value → Result Value
convert_uuid p null = ok null
convert_uuid p (uuid u) = ok (uuid u)
convert_uuid p v = do u ← p.to_uuid v; ok (uuid u)

unfoldable pub convert_jsonb : Parsers → Value → Result Value
convert_jsonb p null = ok null
convert_jsonb p (text s) = ok (text s)
convert_jsonb p v = do s ← p.dump_json v; ok (text s)

unfoldable pub convert : Parsers → ColumnType → Value → Result Value
unfolding convert_datetime convert_uuid convert_jsonb
convert p datetime_column v = convert_datetime p v
convert p uuid_column v = convert_uuid p v
convert p jsonb_column v = convert_jsonb p v
convert p other_column v = ok v

-- row.get(name)
abbrev or_null : Option Value → Value
or_null none = null
or_null (some v) = v

unfoldable pub row_to_tuple :
    Parsers → List (String × ColumnType) → Dict String Value → Result (List Value)
unfolding convert
row_to_tuple p [] row = ok []
row_to_tuple p ((name, t) ∷ columns) row = do
  value ← convert p t (or_null (get name row))
  values ← row_to_tuple p columns row
  ok (value ∷ values)
