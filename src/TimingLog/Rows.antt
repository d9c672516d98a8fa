-- ===== src/TimingLog/Rows.antt =====
-- What the file holds after a run, and after a restart.
use imx8mp_pipe_line_setup.Prelude.{
  ◌<◌, length-append, ◌≡◌, ◌≢◌, refl, sym, ap, ◌∙◌, Option, none, some, List, [], ◌∷◌, ◌++◌, arith,
  length, Bytes, codes, append-nil, append_assoc,
}
use imx8mp_pipe_line_setup.Double.{Double, Stdio}
use imx8mp_pipe_line_setup.TimingLog.{
  LogFile, with_header, open_log, timing_log_init, row, timing_log_record,
}

-- The arguments of one call of `timing_log_record`.
pub record Entry (W : Type 0) : Type 0 where
  pub wall_epoch_seconds : W
  pub frame_transfer_time : W
  pub frame_transfer_time_corrected : W
  pub base_station_processing_time : W

-- The values of a row between commas, and a line feed.
abbrev pub csv : List Bytes → Bytes
csv [] = codes "\n"
csv (cell ∷ []) = cell ++ codes "\n"
csv (cell ∷ next ∷ cells) = cell ++ (codes "," ++ csv (next ∷ cells))

-- What a file that was opened begins with: what it held, or the names of the columns if it held nothing.
pub data BeginsWith (content base : Bytes) : Type 0 where
  named :
      content ≡ []
      → base
        ≡ csv (
            codes "wall_epoch_seconds"
            ∷ codes "frame_transfer_time_ms"
            ∷ codes "frame_transfer_time_corrected_ms"
            ∷ codes "base_station_processing_time_ms"
            ∷ [])
      → BeginsWith content base
  kept : 0 < length content → base ≡ content → BeginsWith content base

timing_log_init-opens :
    (fopen : Bytes → Option Bytes) (path : Bytes) (file : LogFile)
    → path ≢ []
    → (timing_log_init fopen (some path) file).1 ≡ (open_log (fopen path)).1
unfolding timing_log_init
timing_log_init-opens fopen [] file ne = absurd (ne refl)
timing_log_init-opens fopen (c ∷ path) file ne = refl

open_log-some : (content : Bytes) → (open_log (some content)).1 ≡ some (with_header content)
unfolding open_log
open_log-some content = refl

with_header_old : (content : Bytes) → 0 < length content → with_header content ≡ content
unfolding with_header
with_header_old content h = ground arith

with_header-BeginsWith : (content : Bytes) → BeginsWith content (with_header content)
unfolding with_header
with_header-BeginsWith [] = named refl refl
with_header-BeginsWith (c ∷ content) =
    kept (omega arith) (with_header_old (c ∷ content) (omega arith))

with_header_pos : (content : Bytes) → 0 < length (with_header content)
unfolding with_header
with_header_pos [] = omega arith
with_header_pos (c ∷ content) = ground arith

module _ {W : Type 0} ⦃d : Double W⦄ ⦃s : Stdio W⦄ where
  unfoldable pub record_all : List (Entry W) → LogFile → LogFile
  record_all [] file = file
  record_all (e ∷ es) file = record_all es (
      timing_log_record e.wall_epoch_seconds e.frame_transfer_time e.frame_transfer_time_corrected
        e.base_station_processing_time file)

  -- A time in milliseconds, with four decimals.
  abbrev pub in_ms : W → Bytes
  in_ms w = s.fixed 4 (d.mul w (d.decimal 1000 0))

  pub rows : List (Entry W) → Bytes
  rows [] = []
  rows (e ∷ es) =
      csv (
        s.fixed 6 e.wall_epoch_seconds
        ∷ in_ms e.frame_transfer_time
        ∷ in_ms e.frame_transfer_time_corrected
        ∷ in_ms e.base_station_processing_time
        ∷ [])
      ++ rows es

  pub record_all-some :
      (es : List (Entry W)) (content : Bytes)
      → record_all es (some content) ≡ some (content ++ rows es)
  unfolding record_all rows timing_log_record row
  record_all-some [] content = ap some (sym (append-nil content))
  record_all-some (e ∷ es) content = record_all-some es _ ∙ ap some (append_assoc content _ _)

  pub record_all-none : (es : List (Entry W)) → record_all es none ≡ none
  unfolding record_all timing_log_record
  record_all-none [] = refl
  record_all-none (e ∷ es) = record_all-none es

  -- The rows behind what a log holds; a log that is disabled stays so.
  abbrev pub with_rows : List (Entry W) → LogFile → LogFile
  with_rows es none = none
  with_rows es (some content) = some (content ++ rows es)

  pub record_all-with_rows :
      (es : List (Entry W)) (log : LogFile) → record_all es log ≡ with_rows es log
  record_all-with_rows es none = record_all-none es
  record_all-with_rows es (some content) = record_all-some es content

  -- A run of the log on a path that opens on a file with given contents leaves these, or the line with
  -- the names of the four columns if there was nothing, and behind it for each call, in order, one line
  -- of the four values; so a second run on what the first has left adds its lines and no second header.
  pub timing_log_restart :
      (fopen : Bytes → Option Bytes) (path content : Bytes) (first second : List (Entry W))
      → path ≢ []
      → fopen path ≡ some content
      → (base : Bytes) × BeginsWith content base
        × let left = base ++ rows first in
          (record_all first (timing_log_init fopen (some path) none).1 ≡ some left)
          × (record_all second (timing_log_init (λ _. some left) (some path) none).1
              ≡ some (left ++ rows second))
  timing_log_restart fopen path content first second ne e =
      let base = with_header content in
      let left = base ++ rows first in
      let opened =
        timing_log_init-opens fopen path none ne
        ∙ ap (λ r. (open_log r).1) e
        ∙ open_log-some content in
      let again =
        timing_log_init-opens (λ _. some left) path none ne
        ∙ open_log-some left
        ∙ ap some (
            with_header_old left
              (omega (arith, with_header_pos content, length-append base (rows first)))) in
      (
        base,
        with_header-BeginsWith content,
        (
          ap (record_all first) opened ∙ record_all-some first base,
          ap (record_all second) again ∙ record_all-some second left,
        ),
      )

  -- With no path, an empty one, or one that does not open, the log stays disabled through every call.
  pub timing_log_disabled :
      (fopen : Bytes → Option Bytes) (path : Option Bytes) (es : List (Entry W))
      → ((p : Bytes) → path ≡ some p → p ≢ [] → fopen p ≡ none)
      → record_all es (timing_log_init fopen path none).1 ≡ none
  unfolding timing_log_init
  timing_log_disabled fopen none es closed = record_all-none es
  timing_log_disabled fopen (some []) es closed = record_all-none es
  timing_log_disabled fopen (some (c ∷ path)) es closed =
      let shut = closed (c ∷ path) refl (λ e. cc) in
      ap (λ r. record_all es (open_log r).1) shut ∙ record_all-none es
