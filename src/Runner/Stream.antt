-- ===== src/Runner/Stream.antt =====
-- `_BoundedStreamWriter` of src/belt/runner/orchestrator.py: a turn's stream file with a byte cap.
pub mod Prefix
use agent_belt.Prelude.{
  ℕ, ◌+◌, ◌*◌, String, Bool, true, false, Option, none, some, List, [], ◌∷◌, ◌++◌, leb,
  if◌then◌else◌, ◌==◌, string_eq, is_empty,
}
use agent_belt.Prelude.Int.{ℤ, pos, negsuc}

abbrev pub default_turn_ndjson_max_bytes : ℕ
default_turn_ndjson_max_bytes = 50 * 1024 * 1024

-- `int(raw)` of the variable, where it gives a number.
abbrev pub positive_cap : Option ℤ → ℕ
positive_cap (some (pos n)) = if leb n 0 then default_turn_ndjson_max_bytes else n
positive_cap _ = default_turn_ndjson_max_bytes

-- `_turn_stream_cap`, of the variable of the environment; `parse_int` is `int(raw)`, which may raise.
abbrev pub turn_stream_cap : (parse_int : String → Option ℤ) → Option String → ℕ
turn_stream_cap parse_int none = default_turn_ndjson_max_bytes
turn_stream_cap parse_int (some raw) =
    if raw == "" then default_turn_ndjson_max_bytes else positive_cap (parse_int raw)

-- The texts that reached the file, the last one last, and the fields of the wrapper.
pub record BoundedStreamWriter : Type 0 where
  pub fh : List String
  pub max : ℕ
  pub written : ℕ
  pub tripped : Bool

abbrev pub open_writer : ℕ → BoundedStreamWriter
open_writer max_bytes = record { fh = []; max = max_bytes; written = 0; tripped = false }

-- `size` is the number of bytes of a text, `marker` the line that says where the stream was cut.
module _ (size : String → ℕ) (marker : ℕ → String) where
  -- `write`, on a file that takes all that it is given.
  unfoldable pub write : String → BoundedStreamWriter → BoundedStreamWriter
  write text w =
      if w.tripped
      then w
      else (if leb (w.written + size text) w.max
          then record {
            fh = w.fh ++ text ∷ [];
            max = w.max;
            written = w.written + size text;
            tripped = false;
          }
          else record {
            fh = w.fh ++ marker w.max ∷ [];
            max = w.max;
            written = w.written;
            tripped = true;
          })

  unfoldable pub write_all : List String → BoundedStreamWriter → BoundedStreamWriter
  write_all [] w = w
  write_all (text ∷ texts) w = write_all texts (write text w)
