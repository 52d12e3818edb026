-- ===== src/Agent/Store.antt =====
-- JSON files of the state directory, as crates/amcp-agent/src/main.rs reads and replaces them.
use agent_memory_control_pla.Prelude.{String, Option, none, some, List, []}
use agent_memory_control_pla.Prelude.Result.{Result, ok, err}

-- An `anyhow::Error`, by its text.
abbrev pub Error : Type 0
Error = String

-- A file that is not there, one that holds a JSON value, and one that cannot be read or decoded.
pub data Stored (A : Type 0) : Type 0 where
  absent : Stored A
  holds : A → Stored A
  broken : Error → Stored A

module _ {A : Type 0} where
  -- A list that is empty while its file is absent.
  abbrev pub load_list : Stored (List A) → Result Error (List A)
  load_list absent = ok []
  load_list (holds xs) = ok xs
  load_list (broken e) = err e

  -- `load_collection_cache` has this form.
  abbrev pub load_option : Stored A → Result Error (Option A)
  load_option absent = ok none
  load_option (holds x) = ok (some x)
  load_option (broken e) = err e

  -- `create_dir_all`, `write` of a temporary file and `rename`. The fault is the error of the first of
  -- these calls that fails, if one does: the file itself changes only by the rename.
  abbrev pub replace : Option Error → A → Stored A → Result Error (Unit {0}) × Stored A
  replace none x old = (ok tt, holds x)
  replace (some e) x old = (err e, old)
