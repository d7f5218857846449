-- ===== src/Fs.antt =====
-- Directories and watched files (.mooncakes/moonbitlang/async/src/fs), on Linux.
pub mod Directory
pub mod Watch
