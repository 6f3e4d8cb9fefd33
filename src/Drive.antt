-- ===== src/Drive.antt =====
-- The file list of the page, frontend/src/App.tsx and frontend/src/columns.tsx.
pub mod Uploads
pub mod Paging
pub mod Preview
pub mod Drag
pub mod Columns
