-- ===== src/Attribute.antt =====
-- internal/attribute: the compiler of attribute profiles. Tag reads struct tags and the parameters of a
-- marker (util.go), Profile numbers the fields of a marked struct (parse.go). Unicode's table of
-- upper-case letters, its lower-case mapping and `strconv.Unquote` are parameters.
pub mod Tag
pub mod Profile
pub mod TagLaws
pub mod Numbers
pub mod Fields
pub mod Formulas
pub mod FormulaLaws
pub mod Attached
pub mod Taken
pub mod Tests
