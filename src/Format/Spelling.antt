-- ===== src/Format/Spelling.antt =====
-- The spellings of the menu: what parses, what matches, and what tells the kinds apart.
use pigeon_cli.Base.{
  ◌||◌, ◌≡◌, refl, ◌⊎◌, inl, inr, sym, ◌∙◌, ℕ, Bool, true, false, some, List, [], ◌∷◌, map, arith,
}
use pigeon_cli.Base.Tests.{Bool-cases}
use pigeon_cli.Base.Lists.{all, any, All}
use pigeon_cli.Base.Ascii.{codes, to_lower, bytes_eq, bytes_eq→eq}
use pigeon_cli.Base.Outcome.{Result, ok}
use pigeon_cli.Format.Kind.{
  InputFileType, AudioQuality, extensions, output_extension, is_video, is_audio, is_spreadsheet,
}
use pigeon_cli.Format.Kind.{mp4, mp4_audio, png, jpeg, md}
use pigeon_cli.Format.Parse.{name, matches_extension, find_arm, parse_arms, kind_arms, parse}
use pigeon_cli.Format.Quality.{
  audio_arms, video_arms, audio_as_str, parse_audio, VideoQuality, video_as_str, parse_video,
}

find_arm-name : (k : InputFileType) → find_arm (map to_lower (name k)) kind_arms ≡ some k
unfolding name to_lower
find_arm-name png = refl
find_arm-name _ = refl

arm :
    (arms : List (List ℕ × InputFileType)) (s : List ℕ) (k : InputFileType)
    → find_arm s arms ≡ some k
    → parse_arms arms s ≡ ok k
arm arms s k h = ground arith

-- Every kind is parsed back from its displayed name, in whatever case it is typed.
pub parse-name :
    (typed : List ℕ) (k : InputFileType)
    → map to_lower typed ≡ map to_lower (name k)
    → parse typed ≡ ok k
unfolding parse
parse-name typed k e = rw e (arm kind_arms (map to_lower (name k)) k (find_arm-name k))

-- A voice note shares its files' extension with a video; every other kind has its own.
abbrev pub spelled_as : InputFileType → InputFileType
spelled_as mp4_audio = mp4
spelled_as k = k

abbrev IsSpelled : InputFileType → List ℕ → Type 0
IsSpelled k e = find_arm e kind_arms ≡ some (spelled_as k)

extensions-IsSpelled : (k : InputFileType) → All (IsSpelled k) (extensions k)
unfolding extensions
extensions-IsSpelled png = (refl, tt)
extensions-IsSpelled jpeg = (refl, (refl, tt))
extensions-IsSpelled md = (refl, (refl, (refl, tt)))
extensions-IsSpelled _ = (refl, tt)

any_equal :
    (P : List ℕ → Type 0) (s : List ℕ) (es : List (List ℕ))
    → any (bytes_eq s) es ≡ true
    → All P es
    → P s
any_equal P s [] h ps = cc
any_equal P s (e ∷ es) h (p, ps) = elim (Bool-cases (bytes_eq s e)) [
  | inl same ↦ rw (bytes_eq→eq s e same) p
  | inr other ↦ any_equal P s es (ground arith) ps
]

-- Every extension that a kind matches, in any case, is also a spelling that the menu accepts: it
-- parses to that kind, or to the video kind where the kind is a voice note.
pub parse-matches_extension :
    (k : InputFileType) (ext : List ℕ)
    → matches_extension k ext ≡ true
    → parse ext ≡ ok (spelled_as k)
unfolding parse matches_extension
parse-matches_extension k ext h =
    arm kind_arms (map to_lower ext) (spelled_as k)
      (any_equal (IsSpelled k) (map to_lower ext) (extensions k) h (extensions-IsSpelled k))

ok_inj : {A B : Type 0} {a b : B} → ◌≡◌ {A = Result A B} (ok a) (ok b) → a ≡ b
ok_inj e = cc

-- No file belongs to two kinds by its extension, but for the two that share `mp4`.
pub matches_extension_disjoint :
    (j k : InputFileType) (ext : List ℕ)
    → matches_extension j ext ≡ true
    → matches_extension k ext ≡ true
    → spelled_as j ≡ spelled_as k
matches_extension_disjoint j k ext hj hk =
    ok_inj (sym (parse-matches_extension j ext hj) ∙ parse-matches_extension k ext hk)

-- What an arm of the parser says: the kind's name, or one of its extensions.
abbrev is_own : List ℕ → InputFileType → Bool
is_own s k = bytes_eq (name k) s || any (bytes_eq s) (extensions k)

find_arm_sound :
    (s : List ℕ) (arms : List (List ℕ × InputFileType)) (k : InputFileType)
    → all (λ a. is_own a.0 a.1) arms ≡ true
    → find_arm s arms ≡ some k
    → is_own s k ≡ true
find_arm_sound s [] k own h = cc
find_arm_sound s ((t, j) ∷ arms) k own h = elim (Bool-cases (bytes_eq s t)) [
  | inl same ↦ ground (arith, bytes_eq→eq s t same)
  | inr other ↦ find_arm_sound s arms k (ground arith) (rw other at h)
]

kind_arms_own : all (λ a. is_own a.0 a.1) kind_arms ≡ true
unfolding name
kind_arms_own = refl

-- Whatever the menu accepts is, in lower case, the name of the kind or one of its extensions.
parse_sound :
    (typed : List ℕ) (k : InputFileType)
    → parse typed ≡ ok k
    → (name k ≡ map to_lower typed) ⊎ (matches_extension k typed ≡ true)
unfolding parse matches_extension
parse_sound typed k h =
    let own = find_arm_sound (map to_lower typed) kind_arms k kind_arms_own (ground arith) in
    ground (arith, bytes_eq→eq (name k) (map to_lower typed))

-- The three families do not meet, and each has the one output extension that it is known by.
families :
    (k : InputFileType)
    → (is_video k ≡ true
        → (output_extension k ≡ codes "mp4") × (is_audio k ≡ false) × (is_spreadsheet k ≡ false))
      × (is_audio k ≡ true
          → (output_extension k ≡ codes "opus") × (is_video k ≡ false) × (is_spreadsheet k ≡ false))
      × (is_spreadsheet k ≡ true
          → (output_extension k ≡ codes "csv") × (is_video k ≡ false) × (is_audio k ≡ false))
unfolding is_video is_audio is_spreadsheet output_extension
families png = ground arith
families _ = ground arith

-- Both quality menus parse back what they display, in whatever case it is typed.
parse_qualities :
    (typed : List ℕ) (a : AudioQuality) (v : VideoQuality)
    → (map to_lower typed ≡ audio_as_str a → parse_audio typed ≡ ok a)
      × (map to_lower typed ≡ video_as_str v → parse_video typed ≡ ok v)
unfolding parse_audio parse_video audio_as_str video_as_str
parse_qualities typed a v = (λ h. rw h (audio a), λ h. rw h (video v))
  where
    audio : (a : AudioQuality) → parse_arms audio_arms (audio_as_str a) ≡ ok a
    audio AudioQuality.low = refl
    audio _ = refl

    video : (v : VideoQuality) → parse_arms video_arms (video_as_str v) ≡ ok v
    video VideoQuality.low = refl
    video _ = refl
