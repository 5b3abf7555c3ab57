-- ===== src/Document/Ooxml.antt =====
-- services/document-service/internal/http/ooxml.go, over archive/zip and xml.EscapeText.
use esppdv.Base.{String, List, [], ◌∷◌}
use esppdv.Text.{Bytes, ◌+++◌}
use esppdv.Outcome.{Result, ok, err}

-- zip.Writer: a new one, a file added by Create and Write, and Close with what it has written.
pub record ZipLib (Writer : Type 0) : Type 0 where
  pub new_writer : Writer
  pub create : Writer → String → String → Result Writer
  pub close : Writer → Result Bytes

unfoldable pub document_xml : String → String → String → String
document_xml nomor_surat purpose total =
    "<?xml version=\"1.0\" encoding=\"UTF-8\" standalone=\"yes\"?>\n"
    +++ "<w:document xmlns:w=\"http://schemas.openxmlformats.org/wordprocessingml/2006/main\" xmlns:r=\"http://schemas.openxmlformats.org/officeDocument/2006/relationships\">\n"
    +++ "  <w:body>\n" +++ "    <w:p><w:r><w:t>Surat Perintah Perjalanan Dinas</w:t></w:r></w:p>\n"
    +++ "    <w:p><w:r><w:t>Nomor Surat: " +++ nomor_surat +++ "</w:t></w:r></w:p>\n"
    +++ "    <w:p><w:r><w:t>Tujuan: " +++ purpose +++ "</w:t></w:r></w:p>\n"
    +++ "    <w:p><w:r><w:t>Total Biaya: " +++ total +++ "</w:t></w:r></w:p>\n"
    +++ "    <w:sectPr/>\n" +++ "  </w:body>\n" +++ "</w:document>"

abbrev pub docx_content_types : String
docx_content_types =
    "<?xml version=\"1.0\" encoding=\"UTF-8\" standalone=\"yes\"?>\n"
    +++ "<Types xmlns=\"http://schemas.openxmlformats.org/package/2006/content-types\">\n"
    +++ "  <Default Extension=\"rels\" ContentType=\"application/vnd.openxmlformats-package.relationships+xml\"/>\n"
    +++ "  <Default Extension=\"xml\" ContentType=\"application/xml\"/>\n"
    +++ "  <Override PartName=\"/word/document.xml\" ContentType=\"application/vnd.openxmlformats-officedocument.wordprocessingml.document.main+xml\"/>\n"
    +++ "</Types>"

abbrev pub docx_rels : String
docx_rels =
    "<?xml version=\"1.0\" encoding=\"UTF-8\" standalone=\"yes\"?>\n"
    +++ "<Relationships xmlns=\"http://schemas.openxmlformats.org/package/2006/relationships\">\n"
    +++ "  <Relationship Id=\"rId1\" Type=\"http://schemas.openxmlformats.org/officeDocument/2006/relationships/officeDocument\" Target=\"word/document.xml\"/>\n"
    +++ "</Relationships>"

unfoldable pub sheet_xml : String → String → String → String
sheet_xml nomor_surat purpose total =
    "<?xml version=\"1.0\" encoding=\"UTF-8\" standalone=\"yes\"?>\n"
    +++ "<worksheet xmlns=\"http://schemas.openxmlformats.org/spreadsheetml/2006/main\">\n"
    +++ "  <sheetData>\n" +++ "    <row r=\"1\">\n"
    +++ "      <c r=\"A1\" t=\"inlineStr\"><is><t>nomor_surat</t></is></c>\n"
    +++ "      <c r=\"B1\" t=\"inlineStr\"><is><t>purpose</t></is></c>\n"
    +++ "      <c r=\"C1\" t=\"inlineStr\"><is><t>total</t></is></c>\n" +++ "    </row>\n"
    +++ "    <row r=\"2\">\n" +++ "      <c r=\"A2\" t=\"inlineStr\"><is><t>" +++ nomor_surat
    +++ "</t></is></c>\n" +++ "      <c r=\"B2\" t=\"inlineStr\"><is><t>" +++ purpose
    +++ "</t></is></c>\n" +++ "      <c r=\"C2\" t=\"inlineStr\"><is><t>" +++ total
    +++ "</t></is></c>\n" +++ "    </row>\n" +++ "  </sheetData>\n" +++ "</worksheet>"

abbrev pub xlsx_content_types : String
xlsx_content_types =
    "<?xml version=\"1.0\" encoding=\"UTF-8\" standalone=\"yes\"?>\n"
    +++ "<Types xmlns=\"http://schemas.openxmlformats.org/package/2006/content-types\">\n"
    +++ "  <Default Extension=\"rels\" ContentType=\"application/vnd.openxmlformats-package.relationships+xml\"/>\n"
    +++ "  <Default Extension=\"xml\" ContentType=\"application/xml\"/>\n"
    +++ "  <Override PartName=\"/xl/workbook.xml\" ContentType=\"application/vnd.openxmlformats-officedocument.spreadsheetml.sheet.main+xml\"/>\n"
    +++ "  <Override PartName=\"/xl/worksheets/sheet1.xml\" ContentType=\"application/vnd.openxmlformats-officedocument.spreadsheetml.worksheet+xml\"/>\n"
    +++ "</Types>"

abbrev pub xlsx_rels : String
xlsx_rels =
    "<?xml version=\"1.0\" encoding=\"UTF-8\" standalone=\"yes\"?>\n"
    +++ "<Relationships xmlns=\"http://schemas.openxmlformats.org/package/2006/relationships\">\n"
    +++ "  <Relationship Id=\"rId1\" Type=\"http://schemas.openxmlformats.org/officeDocument/2006/relationships/officeDocument\" Target=\"xl/workbook.xml\"/>\n"
    +++ "</Relationships>"

abbrev pub workbook : String
workbook =
    "<?xml version=\"1.0\" encoding=\"UTF-8\" standalone=\"yes\"?>\n"
    +++ "<workbook xmlns=\"http://schemas.openxmlformats.org/spreadsheetml/2006/main\" xmlns:r=\"http://schemas.openxmlformats.org/officeDocument/2006/relationships\">\n"
    +++ "  <sheets>\n" +++ "    <sheet name=\"SPD\" sheetId=\"1\" r:id=\"rId1\"/>\n"
    +++ "  </sheets>\n" +++ "</workbook>"

abbrev pub workbook_rels : String
workbook_rels =
    "<?xml version=\"1.0\" encoding=\"UTF-8\" standalone=\"yes\"?>\n"
    +++ "<Relationships xmlns=\"http://schemas.openxmlformats.org/package/2006/relationships\">\n"
    +++ "  <Relationship Id=\"rId1\" Type=\"http://schemas.openxmlformats.org/officeDocument/2006/relationships/worksheet\" Target=\"worksheets/sheet1.xml\"/>\n"
    +++ "</Relationships>"

module _ {Writer : Type 0} (zip : ZipLib Writer) where
  abbrev closed : Result Writer → Result Bytes
  closed (err e) = err e
  closed (ok zw) = zip.close zw

  -- zipAdd, and the return on its error.
  abbrev zip_add : Result Writer → String → String → Result Writer
  zip_add (err e) name text = err e
  zip_add (ok zw) name text = zip.create zw name text

  abbrev zip_all : Result Writer → List (String × String) → Result Writer
  zip_all zw [] = zw
  zip_all zw ((name, text) ∷ files) = zip_all (zip_add zw name text) files

  -- The files, in order, and Close.
  abbrev pub archive : List (String × String) → Result Bytes
  archive files = closed (zip_all (ok zip.new_writer) files)

abbrev pub docx_files : String → List (String × String)
docx_files document =
    ("[Content_Types].xml", docx_content_types)
    ∷ ("_rels/.rels", docx_rels)
    ∷ ("word/document.xml", document)
    ∷ []

abbrev pub xlsx_files : String → List (String × String)
xlsx_files sheet =
    ("[Content_Types].xml", xlsx_content_types)
    ∷ ("_rels/.rels", xlsx_rels)
    ∷ ("xl/workbook.xml", workbook)
    ∷ ("xl/_rels/workbook.xml.rels", workbook_rels)
    ∷ ("xl/worksheets/sheet1.xml", sheet)
    ∷ []

module _ {Writer : Type 0} (zip : ZipLib Writer) (escape : String → String) where
  -- buildDOCX
  unfoldable pub build_docx : String → String → String → Result Bytes
  build_docx nomor_surat purpose total =
      archive zip (docx_files (document_xml (escape nomor_surat) (escape purpose) (escape total)))

  -- buildXLSX
  unfoldable pub build_xlsx : String → String → String → Result Bytes
  build_xlsx nomor_surat purpose total =
      archive zip (xlsx_files (sheet_xml (escape nomor_surat) (escape purpose) (escape total)))
