-- ===== src/Tests/Logs.antt =====
-- A log of one removal, and the record of a key that is too long (src/zeroskip-record.c).
use mathlib.Core.List.{foldl}
use zeroskip.Prelude.{
  ℕ, ◌+◌, ◌*◌, ◌^◌, length-replicate, ◌≡◌, refl, true, some, List, [], ◌∷◌, ◌++◌, length, replicate,
  arith,
}
use zeroskip.Word.{little, write_be64, store64}
use zeroskip.MFile.{calm, mapped, stat_found}
use zeroskip.Format.Images.{key_image, prepare_delete-long}
use zeroskip.File.{zs_ok, ZsdbFile}
use zeroskip.Record.{Callback, returned, out_of_fuel, record_foreach, foreach_loop}
use zeroskip.Record.Log.{Entry, removed, log_bytes, IsLog, effect}
use zeroskip.Record.Replay.{record_foreach-replays}
use zeroskip.Record.Stuck.{long_delete-foreach_loop}
use zeroskip.Tests.{a_key, a_sum, no_key, no_val, empty_mf}

-- Keys as they come.
abbrev pub collect : Callback (List (List ℕ))
collect = some (λ keys key val. key ∷ keys)

abbrev pub a_removal : List ℕ
a_removal = key_image little (64 * 2 ^ 56 + length a_key * 2 ^ 40) 0 0 a_key

abbrev pub a_log : List Entry
a_log = removed a_key a_removal ∷ []

abbrev pub forty : List ℕ
forty = replicate 40 0

a_log-IsLog : IsLog little a_sum forty a_log
a_log-IsLog = (record { short = omega arith; image = refl }, tt)

abbrev pub a_log_file : ZsdbFile
a_log_file = record {
  is_open = true;
  mf = record empty_mf {
    ptr = mapped (forty ++ log_bytes a_log);
    size = length (forty ++ log_bytes a_log);
  };
}

record_foreach-replays_example :
    record_foreach little a_sum no_key no_val collect collect 2 calm
      (stat_found (forty ++ log_bytes a_log))
      a_log_file
      []
    ≡ returned (zs_ok, foldl (effect collect collect) [] a_log)
unfolding write_be64 store64
record_foreach-replays_example =
    record_foreach-replays little a_sum no_key no_val collect collect a_log forty 2 calm a_log_file
      [] refl a_log-IsLog refl refl refl (omega arith) (omega arith)

-- A key of 65536 bytes.
unfoldable pub long_key : List ℕ
long_key = replicate 65536 7

length-long_key : length long_key ≡ 65536
unfolding long_key
length-long_key = length-replicate {A = ℕ} 65536 7

abbrev pub long_image : List ℕ
long_image = key_image little 0 (length long_key) 0 long_key

long_delete-foreach_loop_example :
    foreach_loop little a_sum no_key no_val collect collect 1000
      (forty ++ (long_image ++ []))
      true
      41
      40
      []
    ≡ out_of_fuel
long_delete-foreach_loop_example =
    long_delete-foreach_loop little a_sum no_key no_val collect collect forty [] long_key long_image
      1000 41 [] (omega (arith, length-long_key)) (omega (arith, length-long_key))
      (prepare_delete-long little long_key (omega (arith, length-long_key))
        (omega (arith, length-long_key)))
      (omega arith)
