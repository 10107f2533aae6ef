-- ===== src/Format/Runs.antt =====
-- Spellings at concrete inputs.
use pigeon_cli.Base.{◌≡◌, refl}
use pigeon_cli.Base.Ascii.{codes, to_lower}
use pigeon_cli.Base.Outcome.{ok}
use pigeon_cli.Format.Kind.{jpeg, md, mp4, mp4_audio}
use pigeon_cli.Format.Parse.{name, parse, matches_extension}
use pigeon_cli.Format.Spelling.{
  spelled_as, parse-name, parse-matches_extension, matches_extension_disjoint,
}

parse-name_example : parse (codes "JPG") ≡ ok jpeg
unfolding name to_lower
parse-name_example = parse-name (codes "JPG") jpeg refl

parse-matches_extension_example : parse (codes "MKD") ≡ ok md
unfolding matches_extension
parse-matches_extension_example = parse-matches_extension md (codes "MKD") refl

matches_extension_disjoint_example : mp4 ≡ spelled_as mp4_audio
unfolding matches_extension
matches_extension_disjoint_example =
    matches_extension_disjoint mp4 mp4_audio (codes "mp4") refl refl
