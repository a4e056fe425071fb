-- ===== src/Shell.antt =====
-- hw-shell: the parts of the shell.
pub mod Tokenizer
