-- ===== src/Format/Kind.antt =====
-- The input kinds of format.rs and their tables.
use pigeon_cli.Base.{ℕ, ◌≡◌, refl, Bool, true, false, List, [], ◌∷◌}
use pigeon_cli.Base.Text.{has}
use pigeon_cli.Base.Ascii.{codes}

pub data InputFileType : Type 0 where
  png jpeg heic mov m4v mp4 mp4_audio numbers xlsx xls csv m4a mp3 aac wav opus : InputFileType
  doc docx pages rtf pdf epub pptx key txt md rst textclipping tsv avif tif : InputFileType
  tiff webp ico icns procreate procreate_2 ai emz svg bmp eps ics vcf : InputFileType

pub data AudioQuality : Type 0 where
  low medium high transparent : AudioQuality

-- `extensions`: the spellings of a kind on disk, the canonical one first.
unfoldable pub extensions : InputFileType → List (List ℕ)
extensions png = codes "png" ∷ []
extensions jpeg = codes "jpg" ∷ codes "jpeg" ∷ []
extensions heic = codes "heic" ∷ []
extensions mov = codes "mov" ∷ []
extensions m4v = codes "m4v" ∷ []
extensions mp4 = codes "mp4" ∷ []
extensions mp4_audio = codes "mp4" ∷ []
extensions numbers = codes "numbers" ∷ []
extensions xlsx = codes "xlsx" ∷ []
extensions xls = codes "xls" ∷ []
extensions csv = codes "csv" ∷ []
extensions m4a = codes "m4a" ∷ []
extensions mp3 = codes "mp3" ∷ []
extensions aac = codes "aac" ∷ []
extensions wav = codes "wav" ∷ []
extensions opus = codes "opus" ∷ []
extensions doc = codes "doc" ∷ []
extensions docx = codes "docx" ∷ []
extensions pages = codes "pages" ∷ []
extensions rtf = codes "rtf" ∷ []
extensions pdf = codes "pdf" ∷ []
extensions epub = codes "epub" ∷ []
extensions pptx = codes "pptx" ∷ []
extensions key = codes "key" ∷ []
extensions txt = codes "txt" ∷ []
extensions md = codes "md" ∷ codes "markdown" ∷ codes "mkd" ∷ []
extensions rst = codes "rst" ∷ []
extensions textclipping = codes "textclipping" ∷ []
extensions tsv = codes "tsv" ∷ []
extensions avif = codes "avif" ∷ []
extensions tif = codes "tif" ∷ []
extensions tiff = codes "tiff" ∷ []
extensions webp = codes "webp" ∷ []
extensions ico = codes "ico" ∷ []
extensions icns = codes "icns" ∷ []
extensions procreate = codes "procreate" ∷ []
extensions procreate_2 = codes "procreate 2" ∷ []
extensions ai = codes "ai" ∷ []
extensions emz = codes "emz" ∷ []
extensions svg = codes "svg" ∷ []
extensions bmp = codes "bmp" ∷ []
extensions eps = codes "eps" ∷ []
extensions ics = codes "ics" ∷ []
extensions vcf = codes "vcf" ∷ []

-- `output_extension`
unfoldable pub output_extension : InputFileType → List ℕ
output_extension png = codes "jpg"
output_extension jpeg = codes "jpg"
output_extension heic = codes "jpg"
output_extension mov = codes "mp4"
output_extension m4v = codes "mp4"
output_extension mp4 = codes "mp4"
output_extension mp4_audio = codes "opus"
output_extension numbers = codes "csv"
output_extension xlsx = codes "csv"
output_extension xls = codes "csv"
output_extension csv = codes "csv"
output_extension m4a = codes "opus"
output_extension mp3 = codes "opus"
output_extension aac = codes "opus"
output_extension wav = codes "opus"
output_extension opus = codes "opus"
output_extension doc = codes "pdf"
output_extension docx = codes "pdf"
output_extension pages = codes "pdf"
output_extension rtf = codes "pdf"
output_extension pdf = codes "pdf"
output_extension epub = codes "pdf"
output_extension pptx = codes "pdf"
output_extension key = codes "pdf"
output_extension txt = codes "txt"
output_extension md = codes "txt"
output_extension rst = codes "txt"
output_extension textclipping = codes "txt"
output_extension tsv = codes "csv"
output_extension avif = codes "jpg"
output_extension tif = codes "jpg"
output_extension tiff = codes "jpg"
output_extension webp = codes "jpg"
output_extension ico = codes "png"
output_extension icns = codes "png"
output_extension procreate = codes "png"
output_extension procreate_2 = codes "png"
output_extension ai = codes "svg"
output_extension emz = codes "svg"
output_extension svg = codes "svg"
output_extension bmp = codes "jpg"
output_extension eps = codes "svg"
output_extension ics = codes "txt"
output_extension vcf = codes "txt"

unfoldable pub is_video : InputFileType → Bool
is_video mov = true
is_video m4v = true
is_video mp4 = true
is_video _ = false

unfoldable pub is_audio : InputFileType → Bool
is_audio mp4_audio = true
is_audio m4a = true
is_audio mp3 = true
is_audio aac = true
is_audio wav = true
is_audio opus = true
is_audio _ = false

unfoldable pub is_spreadsheet : InputFileType → Bool
is_spreadsheet numbers = true
is_spreadsheet xlsx = true
is_spreadsheet xls = true
is_spreadsheet csv = true
is_spreadsheet _ = false

unfoldable pub default_audio_quality : InputFileType → AudioQuality
default_audio_quality mp4_audio = medium
default_audio_quality m4a = transparent
default_audio_quality mp3 = transparent
default_audio_quality aac = transparent
default_audio_quality wav = transparent
default_audio_quality opus = transparent
default_audio_quality _ = medium

pub output_extension-has : (kind : InputFileType) → has b'.' (output_extension kind) ≡ false
unfolding output_extension
output_extension-has png = refl
output_extension-has jpeg = refl
output_extension-has heic = refl
output_extension-has mov = refl
output_extension-has m4v = refl
output_extension-has mp4 = refl
output_extension-has mp4_audio = refl
output_extension-has numbers = refl
output_extension-has xlsx = refl
output_extension-has xls = refl
output_extension-has csv = refl
output_extension-has m4a = refl
output_extension-has mp3 = refl
output_extension-has aac = refl
output_extension-has wav = refl
output_extension-has opus = refl
output_extension-has doc = refl
output_extension-has docx = refl
output_extension-has pages = refl
output_extension-has rtf = refl
output_extension-has pdf = refl
output_extension-has epub = refl
output_extension-has pptx = refl
output_extension-has key = refl
output_extension-has txt = refl
output_extension-has md = refl
output_extension-has rst = refl
output_extension-has textclipping = refl
output_extension-has tsv = refl
output_extension-has avif = refl
output_extension-has tif = refl
output_extension-has tiff = refl
output_extension-has webp = refl
output_extension-has ico = refl
output_extension-has icns = refl
output_extension-has procreate = refl
output_extension-has procreate_2 = refl
output_extension-has ai = refl
output_extension-has emz = refl
output_extension-has svg = refl
output_extension-has bmp = refl
output_extension-has eps = refl
output_extension-has ics = refl
output_extension-has vcf = refl
