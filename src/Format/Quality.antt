-- ===== src/Format/Quality.antt =====
-- The audio and video quality menus.
use pigeon_cli.Base.{ℕ, Option, none, some, List, [], ◌∷◌, map}
use pigeon_cli.Base.Ascii.{codes, to_lower}
use pigeon_cli.Base.Outcome.{Result}
use pigeon_cli.Format.Kind.{AudioQuality}
use pigeon_cli.Format.Parse.{parse_arms}

unfoldable pub bitrate : AudioQuality → List ℕ
bitrate AudioQuality.low = codes "32k"
bitrate AudioQuality.medium = codes "48k"
bitrate AudioQuality.high = codes "96k"
bitrate AudioQuality.transparent = codes "128k"

unfoldable pub audio_as_str : AudioQuality → List ℕ
audio_as_str AudioQuality.low = codes "low"
audio_as_str AudioQuality.medium = codes "medium"
audio_as_str AudioQuality.high = codes "high"
audio_as_str AudioQuality.transparent = codes "transparent"

abbrev pub audio_arms : List (List ℕ × AudioQuality)
audio_arms =
    (codes "low", AudioQuality.low)
    ∷ (codes "medium", AudioQuality.medium)
    ∷ (codes "high", AudioQuality.high)
    ∷ (codes "transparent", AudioQuality.transparent)
    ∷ []

unfoldable pub parse_audio : List ℕ → Result (List ℕ) AudioQuality
unfolding to_lower
parse_audio value = parse_arms audio_arms (map to_lower value)

pub data VideoQuality : Type 0 where
  low medium high lossless : VideoQuality

-- The constant rate factor of `libx265`; a lossless encode has none.
unfoldable pub crf : VideoQuality → Option ℕ
crf VideoQuality.low = some 30
crf VideoQuality.medium = some 24
crf VideoQuality.high = some 20
crf VideoQuality.lossless = none

unfoldable pub video_as_str : VideoQuality → List ℕ
video_as_str VideoQuality.low = codes "low"
video_as_str VideoQuality.medium = codes "medium"
video_as_str VideoQuality.high = codes "high"
video_as_str VideoQuality.lossless = codes "lossless"

abbrev pub video_arms : List (List ℕ × VideoQuality)
video_arms =
    (codes "low", VideoQuality.low)
    ∷ (codes "medium", VideoQuality.medium)
    ∷ (codes "high", VideoQuality.high)
    ∷ (codes "lossless", VideoQuality.lossless)
    ∷ []

unfoldable pub parse_video : List ℕ → Result (List ℕ) VideoQuality
unfolding to_lower
parse_video value = parse_arms video_arms (map to_lower value)
