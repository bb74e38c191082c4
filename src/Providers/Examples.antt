-- ===== src/Providers/Examples.antt =====
-- Choices, on which the theorems about the providers are applied.
