-- ===== src/Format/Parse.antt =====
-- The names of kinds and qualities, and their parsers.
use pigeon_cli.Base.{ℕ, Bool, Option, none, some, List, [], ◌∷◌, map}
use pigeon_cli.Base.Tests.{if◌then◌else◌}
use pigeon_cli.Base.Lists.{any}
use pigeon_cli.Base.Ascii.{codes, to_lower, bytes_eq}
use pigeon_cli.Base.Outcome.{Result, ok, err}
use pigeon_cli.Format.Kind.{InputFileType, extensions}
use pigeon_cli.Format.Kind.{
  png, jpeg, heic, mov, m4v, mp4, mp4_audio, numbers, xlsx, xls, csv, m4a, mp3, aac, wav, opus, doc,
  docx, pages, rtf, pdf, epub, pptx, key, txt, md, rst, textclipping, tsv, avif, tif, tiff, webp,
  ico, icns, procreate, procreate_2, ai, emz, svg, bmp, eps, ics, vcf,
}

-- `self.extensions()[0]`; no kind has none.
abbrev pub first : List (List ℕ) → List ℕ
first [] = []
first (e ∷ es) = e

unfoldable pub canonical_extension : InputFileType → List ℕ
unfolding extensions
canonical_extension k = first (extensions k)

unfoldable pub name : InputFileType → List ℕ
unfolding canonical_extension
name mp4_audio = codes "mp4-audio"
name procreate_2 = codes "procreate-2"
name k = canonical_extension k

unfoldable pub matches_extension : InputFileType → List ℕ → Bool
unfolding to_lower extensions
matches_extension k ext = any (bytes_eq (map to_lower ext)) (extensions k)

-- The arms of a `match` on a text, in order; the rest of the value is the unknown text of the error.
abbrev pub find_arm {ℓ} : {A : Type ℓ} → List ℕ → List (List ℕ × A) → Option A
find_arm s [] = none
find_arm s ((t, a) ∷ arms) = if bytes_eq s t then some a else find_arm s arms

abbrev pub parse_arms {ℓ} : {A : Type ℓ} → List (List ℕ × A) → List ℕ → Result (List ℕ) A
parse_arms arms s = elim (find_arm s arms) [ none ↦ err s | some a ↦ ok a ]

-- The arms of `InputFileType::parse`.
abbrev pub kind_arms : List (List ℕ × InputFileType)
kind_arms =
    (codes "png", png)
    ∷ (codes "jpeg", jpeg)
    ∷ (codes "jpg", jpeg)
    ∷ (codes "heic", heic)
    ∷ (codes "mov", mov)
    ∷ (codes "m4v", m4v)
    ∷ (codes "mp4", mp4)
    ∷ (codes "mp4-audio", mp4_audio)
    ∷ (codes "numbers", numbers)
    ∷ (codes "xlsx", xlsx)
    ∷ (codes "xls", xls)
    ∷ (codes "csv", csv)
    ∷ (codes "m4a", m4a)
    ∷ (codes "mp3", mp3)
    ∷ (codes "aac", aac)
    ∷ (codes "wav", wav)
    ∷ (codes "opus", opus)
    ∷ (codes "doc", doc)
    ∷ (codes "docx", docx)
    ∷ (codes "pages", pages)
    ∷ (codes "rtf", rtf)
    ∷ (codes "pdf", pdf)
    ∷ (codes "epub", epub)
    ∷ (codes "pptx", pptx)
    ∷ (codes "key", key)
    ∷ (codes "txt", txt)
    ∷ (codes "md", md)
    ∷ (codes "markdown", md)
    ∷ (codes "mkd", md)
    ∷ (codes "rst", rst)
    ∷ (codes "textclipping", textclipping)
    ∷ (codes "tsv", tsv)
    ∷ (codes "avif", avif)
    ∷ (codes "tif", tif)
    ∷ (codes "tiff", tiff)
    ∷ (codes "webp", webp)
    ∷ (codes "ico", ico)
    ∷ (codes "icns", icns)
    ∷ (codes "procreate", procreate)
    ∷ (codes "procreate-2", procreate_2)
    ∷ (codes "procreate 2", procreate_2)
    ∷ (codes "ai", ai)
    ∷ (codes "emz", emz)
    ∷ (codes "svg", svg)
    ∷ (codes "bmp", bmp)
    ∷ (codes "eps", eps)
    ∷ (codes "ics", ics)
    ∷ (codes "vcf", vcf)
    ∷ []

-- `InputFileType::parse`; an error carries the lower-case value that its message quotes.
unfoldable pub parse : List ℕ → Result (List ℕ) InputFileType
unfolding to_lower
parse value = parse_arms kind_arms (map to_lower value)
