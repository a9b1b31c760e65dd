-- ===== src/HintParser.antt =====
-- hint_parser/hint_scanner.l, hint_parser/hint_gram.y and hint_parser/hint_parser.c: the hints in a string.
pub mod Scanner
pub mod Parser
pub mod Grammar
mod Printed
mod Tests
