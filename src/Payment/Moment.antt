-- ===== src/Payment/Moment.antt =====
-- Python `datetime` values that are read from ISO text: a wall clock with or without an offset.
use policy_pilot.Prelude.{ℕ, ◌+◌, Bool, Option, none, some, ltb}
use policy_pilot.Payment.Model.{Time}

-- A UTC offset, in microseconds.
pub data Offset : Type 0 where
  east west : ℕ → Offset

pub record Moment : Type 0 where
  pub wall : Time
  pub offset : Option Offset

-- `replace(tzinfo=None)` keeps the wall clock and drops the offset.
abbrev pub drop_tzinfo : Moment → Time
drop_tzinfo m = m.wall

-- The offset that the approval check assumes of a naive value is UTC.
abbrev pub offset_or_utc : Option Offset → Offset
offset_or_utc none = east 0
offset_or_utc (some o) = o

-- An instant is the wall clock less the offset; both sides are moved by the offset's size, so
-- that no subtraction is cut off.
abbrev before_at : Time → Offset → Time → Bool
before_at wall (east o) now = ltb wall (now + o)
before_at wall (west o) now = ltb (wall + o) now

abbrev after_at : Time → Offset → Time → Bool
after_at wall (east o) now = ltb (now + o) wall
after_at wall (west o) now = ltb now (wall + o)

-- `m < now` and `m > now` for an aware `now` in UTC.
abbrev pub is_before : Moment → Time → Bool
is_before m now = before_at m.wall (offset_or_utc m.offset) now

abbrev pub is_after : Moment → Time → Bool
is_after m now = after_at m.wall (offset_or_utc m.offset) now
