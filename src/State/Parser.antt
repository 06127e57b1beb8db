-- ===== src/State/Parser.antt =====
-- backend/internal/state/parser.go: the changes of the character that a text shows.
pub mod Scan
pub mod Spans
pub mod Prompt
pub mod PromptLine
pub mod LastPrompt
pub mod SortedTags
pub mod ShownTags
pub mod Tags
pub mod Equipment
pub mod Location
pub mod Parse
