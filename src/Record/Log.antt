-- ===== src/Record/Log.antt =====
-- A data file as a log: the entries behind the header, each in the form that the writers of
-- src/zeroskip-file.c give it.
use zeroskip.Prelude.{
  ℕ, ◌+◌, ◌-◌, ◌*◌, ◌^◌, ◌≤◌, ◌<◌, ◌≡◌, none, some, List, [], ◌∷◌, ◌++◌, length, drop,
}
use zeroskip.Word.{Host, store64, write_be64}
use zeroskip.MFile.{Checksum}
use zeroskip.Format.{max_short_key_len}
use zeroskip.Format.Images.{key_image}
use zeroskip.Format.KeyRecord.{IsKeyRecord}
use zeroskip.Format.ValRecord.{IsValRecord}
use zeroskip.Record.{Callback}

-- An entry, with the bytes that stand for it.
pub data Entry : Type 0 where
  stored : List ℕ → List ℕ → List ℕ → List ℕ → Entry
  removed : List ℕ → List ℕ → Entry
  committed : List ℕ → Entry

abbrev pub entry_bytes : Entry → List ℕ
entry_bytes (stored key val keybuf valbuf) = keybuf ++ valbuf
entry_bytes (removed key buf) = buf
entry_bytes (committed buf) = buf

abbrev pub log_bytes : List Entry → List ℕ
log_bytes [] = []
log_bytes (e ∷ es) = entry_bytes e ++ log_bytes es

-- The word of a short commit without its checksum.
abbrev pub commit_word : ℕ → ℕ
commit_word len = 4 * 2 ^ 56 + len * 2 ^ 32

module _ (host : Host) where
  pub record IsDeleteRecord (key buf : List ℕ) : Type 0 where
    pub short : length key ≤ max_short_key_len
    pub image : buf ≡ key_image host (64 * 2 ^ 56 + length key * 2 ^ 40) 0 0 key

module _ (host : Host) (crc : Checksum) where
  -- The checksum: of the last `len` bytes before the record, and of that word.
  abbrev pub commit_sum : List ℕ → ℕ → ℕ
  commit_sum before len =
      crc.run (crc.run (crc.run 0 []) (drop (length before - len) before))
        (store64 host (commit_word len))

  pub record IsCommitRecord (before buf : List ℕ) : Type 0 where
    pub len : ℕ
    pub short : len < 2 ^ 24
    pub inside : len ≤ length before
    pub image : buf ≡ write_be64 host (commit_word len + commit_sum before len)

  abbrev pub IsEntry : List ℕ → Entry → Type 0
  IsEntry before (stored key val keybuf valbuf) =
      IsKeyRecord host key keybuf × IsValRecord host val valbuf
  IsEntry before (removed key buf) = IsDeleteRecord host key buf
  IsEntry before (committed buf) = IsCommitRecord before buf

  -- Every entry is well written, behind `before` and the entries ahead of it.
  abbrev pub IsLog : List ℕ → List Entry → Type 0
  IsLog before [] = Unit
  IsLog before (e ∷ es) = IsEntry before e × IsLog (before ++ entry_bytes e) es

-- What the callbacks make of an entry.
abbrev pub effect : {S : Type 0} → Callback S → Callback S → S → Entry → S
effect none deleted s (stored key val keybuf valbuf) = s
effect (some f) deleted s (stored key val keybuf valbuf) = f s key val
effect cb none s (removed key buf) = s
effect cb (some f) s (removed key buf) = f s key []
effect cb deleted s (committed buf) = s
