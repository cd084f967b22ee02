-- ===== src/Tests/Sessions.antt =====
-- A session on an active file that holds a header alone.
use mathlib.Core.List.{foldl}
use zeroskip.Prelude.{
  ℕ, ◌≡◌, refl, inr, Bool, true, false, none, some, List, [], ◌∷◌, replicate, arith,
}
use zeroskip.Word.{little}
use zeroskip.MFile.{calm, mapped, stat_found}
use zeroskip.File.{Code, zs_ok}
use zeroskip.File.Writes.{contents}
use zeroskip.Record.{returned, record_foreach}
use zeroskip.Active.{Priv, Replace, DotOs}
use zeroskip.Active.Session.{Op, put, delete, commit, run_ops, op_effect, IsReady, Session}
use zeroskip.Active.Whole.{run_ops-Session, run_ops-record_foreach}
use zeroskip.Tests.{a_key, a_val, a_sum, no_key, no_val, empty_mf}

-- A tree that lists the changes.
abbrev pub Changes : Type 0
Changes = List (List ℕ × (List ℕ × Bool))

abbrev pub log_change : Replace Changes
log_change tree key val deleted = (key, (val, deleted)) ∷ tree

abbrev pub no_call : Priv Changes → Code × Priv Changes
no_call p = (zs_ok, p)

abbrev pub no_update : DotOs
no_update = record { begins = false; found = none; ends = false }

abbrev pub fresh_priv : Priv Changes
fresh_priv = record {
  is_open = true;
  write_locked = true;
  factive = record {
    is_open = true;
    mf = record empty_mf { ptr = mapped (replicate 40 0); size = 40; offset = 40 };
  };
  factive_dirty = false;
  dbdirty = false;
  memtree = [];
  curidx = 0;
  offset = 40;
}

fresh_priv-IsReady : IsReady a_sum fresh_priv
fresh_priv-IsReady = record {
  opened = refl;
  locked = refl;
  writable = record {
    opened = refl;
    appending = record {
      well = record { sized = refl; placed = omega arith };
      usable = λ e. cc e;
      writable = refl;
      at_end = refl;
    };
  };
  tracks = inr (refl, refl, refl);
}

abbrev pub some_ops : List Op
some_ops = put a_key a_val ∷ commit ∷ delete a_key ∷ commit ∷ []

run_ops-Session_example :
    (p' : Priv Changes) × (run_ops little a_sum log_change no_call no_call no_call no_update
        some_ops fresh_priv
      ≡ some (zs_ok, p'))
    × Session little a_sum log_change some_ops fresh_priv p'
run_ops-Session_example =
    run_ops-Session little a_sum log_change no_call no_call no_call no_update some_ops fresh_priv
      fresh_priv-IsReady (omega arith, (tt, ((omega arith, omega arith), (tt, tt)))) (omega arith)

abbrev pub found : List (List ℕ × List ℕ) → List ℕ → List ℕ → List (List ℕ × List ℕ)
found pairs key val = (key, val) ∷ pairs

run_ops-record_foreach_example :
    (p' : Priv Changes) × (run_ops little a_sum log_change no_call no_call no_call no_update
        some_ops fresh_priv
      ≡ some (zs_ok, p'))
    × (record_foreach little a_sum no_key no_val
          (some found)
          (some found)
          5
          calm
          (stat_found (contents p'.factive))
          p'.factive
          []
        ≡ returned (zs_ok, foldl (op_effect found found) [] some_ops))
run_ops-record_foreach_example =
    run_ops-record_foreach little a_sum log_change no_call no_call no_call no_update some_ops
      fresh_priv no_key no_val found found [] 5 calm fresh_priv-IsReady
      (omega arith, (tt, ((omega arith, omega arith), (tt, tt)))) refl (omega arith) (omega arith)
