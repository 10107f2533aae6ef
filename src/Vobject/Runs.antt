-- ===== src/Vobject/Runs.antt =====
-- Small calendars and contacts, as the program's own tests have them.
use pigeon_cli.Base.{ℕ, String, ◌≡◌, refl, true, none, some, List, [], ◌∷◌, map, arith}
use pigeon_cli.Base.Tests.{ltb, if◌then◌else◌}
use pigeon_cli.Base.Ascii.{codes}
use pigeon_cli.Base.Outcome.{ok, err}
use pigeon_cli.Vobject.Unfold.{soft_break, unfold_bytes}
use pigeon_cli.Vobject.Unfold.RoundTrip.{Pieces, fold_lines, whole_line, unfold_bytes-fold_lines}
use pigeon_cli.Vobject.Value.{decode_octets, latin_1, decode_quoted_printable}
use pigeon_cli.Vobject.Value.RoundTrip.{structured, parts_of-structured}
use pigeon_cli.Vobject.Value.QuotedPrintable.{encode_octets, decode_quoted_printable-encode_octets}
use pigeon_cli.Vobject.Property.{Property, is_quoted_printable, parts_of}
use pigeon_cli.Vobject.Components.{components}
use pigeon_cli.Vobject.Components.Nesting.{
  Nodes, write, collect, components-write, finished, leaf, comp,
}
use pigeon_cli.Vobject.Cards.{ics_to_text, vcf_to_text, no_begin}
use pigeon_cli.Base.Utf8.{is_utf8}

abbrev stub : List ℕ
stub = codes "BEGIN:VCALENDAR\r\nPRODID:-//AFKLM//CRMPUSH//TKT//EN\r\nEND:VCALENDAR\r\n"

stub_run : ics_to_text (some stub) true ≡ ok (codes "Calendar\n\nNo events.\n")
unfolding ics_to_text
stub_run = refl

abbrev meeting : List ℕ
meeting =
    codes
      "BEGIN:VCALENDAR\nBEGIN:VEVENT\nSUMMARY:Da\r\n y\\, all\nDTSTART:20230501T120030Z\nDURATION:PT1H\nBEGIN:VALARM\nSUMMARY:no\nEND:VALARM\nEND:VEVENT\nEND:VCALENDAR"

meeting_run :
    ics_to_text (some meeting) true
    ≡ ok (
        codes
          "Calendar\n\nEvent 1 of 1\nSummary: Day, all\nWhen: 2023-05-01 12:00:30 (UTC), lasting PT1H\n")
unfolding ics_to_text
meeting_run = refl

no_calendar_run : ics_to_text (some (codes "hello\n")) true ≡ err no_begin
unfolding ics_to_text
no_calendar_run = refl

abbrev card : List ℕ
card =
    codes
      "BEGIN:VCARD\nVERSION:2.1\nFN:Ann\nTEL;HOME;VOICE:+1\nPHOTO;BASE64:AAAA\nNOTE;QUOTED-PRINTABLE:a=\nb=3D\nEND:VCARD"

card_run :
    vcf_to_text (some card) true
    ≡ ok (codes "Contact 1 of 1\nName: Ann\nPhone (home, voice): +1\nNote: ab=\n")
unfolding vcf_to_text
card_run = refl

abbrev apple : List ℕ
apple =
    codes
      "BEGIN:VCARD\r\nN:Doe;Jane;;;\r\nFN:Jane Doe\r\nORG:Acme\\, Inc.;Research\r\nitem2.TEL;type=pref:+1 (604)\r\nitem2.X-ABLabel:_$!<Mobile>!$_\r\nitem3.ADR;type=HOME:;;1 Main St\\nApt 2;Vancouver;BC;V5K 0A1;Canada\r\nitem3.X-ABLabel:cottage\r\nPHOTO;ENCODING=b;TYPE=JPEG:/9j/4AAQ\r\nNOTE:Met at\\nthe conference\r\nEND:VCARD\r\n"

apple_run :
    vcf_to_text (some apple) true
    ≡ ok (
        codes
          "Contact 1 of 1\nName: Jane Doe\nOrganization: Acme, Inc., Research\nPhone (Mobile): +1 (604)\nAddress (cottage): 1 Main St, Apt 2, Vancouver, BC, V5K 0A1, Canada\nNote:\n  Met at\n  the conference\n")
unfolding vcf_to_text
apple_run = refl

-- Not two hexadecimal digits, and yet decoded.
plus_run : decode_octets (codes "=+5") ≡ 5 ∷ []
unfolding decode_octets
plus_run = refl

abbrev folded_lines : List Pieces
folded_lines = (codes "SUMM", codes "ARY:Hi" ∷ codes " there" ∷ []) ∷ (codes "END:X", []) ∷ []

unfold_bytes-fold_lines_example :
    unfold_bytes (fold_lines folded_lines) ≡ map whole_line folded_lines
unfolding soft_break
unfold_bytes-fold_lines_example =
    unfold_bytes-fold_lines folded_lines
      ((refl, refl, refl, (refl, refl, (refl, refl, tt))), ((refl, refl, refl, tt), tt)) refl

abbrev full_name : Property
full_name = record {
  group = none;
  name = codes "N";
  params = [];
  value = structured (codes "Smith; or not") (codes "A\nB" ∷ []);
}

parts_of-structured_example : parts_of full_name ≡ codes "Smith; or not" ∷ codes "A\nB" ∷ []
unfolding is_quoted_printable
parts_of-structured_example =
    parts_of-structured full_name (codes "Smith; or not") (codes "A\nB" ∷ []) refl refl

decode_quoted_printable-encode_octets_example :
    decode_quoted_printable (encode_octets (λ b. ltb b'=' b) (codes "a=b"))
    ≡ (if is_utf8 (codes "a=b") then codes "a=b" else latin_1 (codes "a=b"))
decode_quoted_printable-encode_octets_example =
    decode_quoted_printable-encode_octets (λ b. ltb b'=' b) (codes "a=b") refl
      (omega arith, (omega arith, (omega arith, tt)))

abbrev summary : String → Property
summary value = record { group = none; name = codes "SUMMARY"; params = []; value = codes value }

-- An event with an alarm inside, in a calendar.
abbrev nested : Nodes
nested =
    comp (codes "VCALENDAR")
      (comp (codes "vevent")
        (leaf (summary "a") (comp (codes "VALARM") (leaf (summary "b") finished) finished))
        finished)
      finished

components-write_example :
    components (codes "VEVENT" ∷ []) (write nested) ≡ collect (codes "VEVENT" ∷ []) nested
components-write_example =
    components-write (codes "VEVENT" ∷ []) nested ((((refl, refl, ((refl, refl, tt), tt)), tt)), tt)
