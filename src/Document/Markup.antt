-- ===== src/Document/Markup.antt =====
-- The texts of an SPD cannot add markup to its documents.
use Prim.Native.Char.{Char, code}
use esppdv.Base.{
  ℕ, List, [], ◌∷◌, map, suc, ◌+◌, String, ◌≡◌, refl, ◌∙◌, ◌==◌, arith, Bool-cases, inl, inr,
  if◌then◌else◌,
}
use Prim.Native.String.append as clauses
use esppdv.Text.{◌+++◌}
use esppdv.Text.{Bytes}
use esppdv.Outcome.{Result}
use esppdv.Document.Ooxml.{
  ZipLib, archive, document_xml, sheet_xml, docx_files, xlsx_files, build_docx, build_xlsx,
}

-- How many tags a text opens or closes: its characters `<`.
unfoldable pub tags : String → ℕ
tags String.[] = 0
tags (String.◌∷◌ c s) = let rest = tags s in if code c == 60 then suc rest else rest

tags-cons :
    (c : Char) (s t : String)
    → tags (s +++ t) ≡ tags s + tags t
    → tags (String.◌∷◌ c (s +++ t)) ≡ tags (String.◌∷◌ c s) + tags t
unfolding tags
tags-cons c s t h = elim (Bool-cases (code c == 60)) [
  | inl e ↦ rw (e, h) (omega arith)
  | inr e ↦ rw (e, h) (omega arith)
]

pub tags-append : (s t : String) → tags (s +++ t) ≡ tags s + tags t
unfolding tags
tags-append String.[] t = (λ i. tags (clauses.nil t i)) ∙ omega arith
tags-append (String.◌∷◌ c s) t =
    (λ i. tags (clauses.cons c s t i)) ∙ tags-cons c s t (tags-append s t)

-- A result that is an archive of files with given names and numbers of tags.
pub record Packed {Writer : Type 0} (zip : ZipLib Writer) (r : Result Bytes)
    (counts : List (String × ℕ)) : Type 0 where
  pub files : List (String × String)
  pub packed : r ≡ archive zip files
  pub counted : map (λ f. (f.0, tags f.1)) files ≡ counts

abbrev pub docx_tags : List (String × ℕ)
docx_tags = ("[Content_Types].xml", 6) ∷ ("_rels/.rels", 4) ∷ ("word/document.xml", 30) ∷ []

abbrev pub xlsx_tags : List (String × ℕ)
xlsx_tags =
    ("[Content_Types].xml", 7)
    ∷ ("_rels/.rels", 4)
    ∷ ("xl/workbook.xml", 6)
    ∷ ("xl/_rels/workbook.xml.rels", 4)
    ∷ ("xl/worksheets/sheet1.xml", 45)
    ∷ []

-- Where EscapeText leaves no `<`, what buildDOCX and buildXLSX return is the archive of files with
-- fixed names and a fixed number of characters `<` in each, whatever the texts of the SPD are: 30 in
-- the document and 45 in the sheet.
pub markup_kept :
    {Writer : Type 0} (zip : ZipLib Writer) (escape : String → String)
    (nomor_surat purpose total : String)
    → ((s : String) → tags (escape s) ≡ 0)
    → Packed zip (build_docx zip escape nomor_surat purpose total) docx_tags
      × Packed zip (build_xlsx zip escape nomor_surat purpose total) xlsx_tags
unfolding build_docx build_xlsx document_xml sheet_xml tags
markup_kept zip escape a b c h = (
  record {
    files = docx_files (document_xml (escape a) (escape b) (escape c));
    packed = refl;
    counted = simp (tags-append, h a, h b, h c) refl;
  },
  record {
    files = xlsx_files (sheet_xml (escape a) (escape b) (escape c));
    packed = refl;
    counted = simp (tags-append, h a, h b, h c) refl;
  },
)
