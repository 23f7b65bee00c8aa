-- ===== src/Translator.antt =====
-- The configuration of the translator's nginx:
-- modules/operator/internal/controller/translator_render.go.
pub mod Pattern
pub mod Conf
pub mod Objects
