-- ===== src/Payment/Iso.antt =====
-- The ISO texts of `datetime` values that the services store, by the parts that they treat differently: the
-- wall clock, which the text spells, and what stands behind it.
use policy_pilot.Prelude.{
  ℕ, ◌+◌, ◌*◌, ◌/◌, ◌%◌, Bool, true, false, none, some, ◌&&◌, ◌==◌, if◌then◌else◌,
}
use policy_pilot.Payment.Model.{Time}
use policy_pilot.Payment.Moment.{Moment, east, drop_tzinfo}

-- Nothing, "Z", or "+00:00".
pub data Zone : Type 0 where
  no_zone zulu utc_offset : Zone

pub record IsoText : Type 0 where
  pub clock : Time
  pub zone : Zone

abbrev zone_eq : Zone → Zone → Bool
zone_eq no_zone no_zone = true
zone_eq zulu zulu = true
zone_eq utc_offset utc_offset = true
zone_eq _ _ = false

abbrev pub iso_eq : IsoText → IsoText → Bool
iso_eq x y = x.clock == y.clock && zone_eq x.zone y.zone

-- `isoformat()` of a naive value.
abbrev isoformat : Time → IsoText
isoformat t = record { clock = t; zone = no_zone }

-- `datetime.fromisoformat`
abbrev fromisoformat : IsoText → Moment
fromisoformat x = record {
  wall = x.clock;
  offset = elim x.zone [ no_zone ↦ none | zulu ↦ some (east 0) | utc_offset ↦ some (east 0) ];
}

-- `replace("Z", "+00:00")`
abbrev replace_zulu : IsoText → IsoText
replace_zulu x = record x {
  zone = elim x.zone [ no_zone ↦ no_zone | zulu ↦ utc_offset | utc_offset ↦ utc_offset ];
}

-- `value.isoformat() + "Z"`, of a naive value
abbrev pub format_timestamp : Time → IsoText
format_timestamp t = record (isoformat t) { zone = zulu }

-- `_parse_timestamp` of a text
abbrev pub parse_timestamp : IsoText → Time
parse_timestamp x = drop_tzinfo (fromisoformat (replace_zulu x))

-- The order of the texts that end in "Z". `isoformat` leaves out a fraction of zero, and "." stands before
-- "Z", so that a whole second comes after its fractions.
abbrev pub text_order : IsoText → ℕ
text_order x =
    x.clock / 1000000 * 1000001 + (if x.clock % 1000000 == 0 then 1000000 else x.clock % 1000000)
