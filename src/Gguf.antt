-- ===== src/Gguf.antt =====
-- gguf_discovery.py of src/kitt/campaign: the quantizations of a repository's GGUF files, the tags
-- of Ollama and the local path of a model. Texts are code points; digits and case are those of
-- ASCII. Lists of files, pages and directories come as arguments.
pub mod Names
pub mod Discover
pub mod Grouped
pub mod Prefix
