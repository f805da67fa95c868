-- ===== src/Ui/Times.antt =====
-- `_format_time` of client/src/ui/utils.py.
use cs4455_epic.Base.{
  ℕ, Bool, not, ◌&&◌, Option, none, some, List, [], ◌∷◌, ◌++◌, ◌==◌, if◌then◌else◌,
}
use cs4455_epic.Base.Text.{Str, lit}
use cs4455_epic.Codec.Decimal.{show_ℕ}
use cs4455_epic.Json.{Json, str, truthy}

-- What is used of a `datetime`, with `%b` and `%I:%M %p` of its `strftime`.
pub record Moment : Type 0 where
  pub year : ℕ
  pub month : ℕ
  pub day : ℕ
  pub month_name : Str
  pub clock_time : Str

-- `datetime.strptime`, where `none` is a `ValueError`; `date.today`; and `str` of a value that is no
-- text.
pub record Calendar : Type 0 where
  pub strptime : (raw format : Str) → Option Moment
  pub today_year : ℕ
  pub today_month : ℕ
  pub today_day : ℕ
  pub shown : Json → Str

-- `NOW_FMT` and the formats of the server
abbrev pub formats : List Str
formats =
    lit "%Y-%m-%d %H:%M"
    ∷ lit "%Y-%m-%dT%H:%M:%S.%fZ"
    ∷ lit "%Y-%m-%dT%H:%M:%SZ"
    ∷ lit "%Y-%m-%dT%H:%M:%S"
    ∷ []

-- `text.lstrip("0")`
unfoldable pub lstrip_zero : Str → Str
lstrip_zero [] = []
lstrip_zero (c ∷ text) = let rest = lstrip_zero text in if c == b'0' then rest else c ∷ text

module _ (K : Calendar) where
  -- `str(raw)`
  unfoldable pub text_of : Json → Str
  text_of (str s) = s
  text_of raw = K.shown raw

  -- The loop over the formats
  unfoldable pub first_parsed : Str → List Str → Option Moment
  first_parsed raw_s [] = none
  first_parsed raw_s (format ∷ rest) =
      let later = first_parsed raw_s rest in
      elim (K.strptime raw_s format) [ none ↦ later | some dt ↦ some dt ]

  unfoldable pub is_today : Moment → Bool
  is_today dt = dt.year == K.today_year && dt.month == K.today_month && dt.day == K.today_day

  unfoldable pub format_moment : Bool → Moment → Str
  unfolding is_today lstrip_zero
  format_moment short dt =
      let hour = lstrip_zero dt.clock_time in
      let day = dt.month_name ++ (lit " " ++ show_ℕ dt.day) in
      if is_today dt
      then hour
      else if dt.year == K.today_year
      then (if short then day else day ++ (lit ", " ++ hour))
      else day ++ (lit " " ++ show_ℕ dt.year)

  unfoldable pub format_time : Json → (short : Bool) → Str
  unfolding text_of first_parsed format_moment
  format_time raw short =
      if not (truthy raw) then [] else (elim (first_parsed (text_of raw) formats) [
        | none ↦ text_of raw
        | some dt ↦ format_moment short dt
      ])
