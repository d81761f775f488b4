-- ===== src/Schema/Columns.antt =====
-- The types of the columns of migrations/*.sql.
use workforce_platform.Base.{ℕ}

-- Identifiers and texts that the program only compares: distinct texts are distinct numbers, and 0
-- is the empty text.
abbrev pub Ident : Type 0
Ident = ℕ

abbrev pub Text : Type 0
Text = ℕ

-- An instant; the database clock never reads 0.
abbrev pub Time : Type 0
Time = ℕ
