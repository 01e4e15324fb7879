-- ===== src/Intake/Postgres.antt =====
-- internal/intake/service.go over the store of internal/store/postgres.
use rc_pangjiahui.Store.Tables.{Db}
use rc_pangjiahui.Store.Intake.{CreateCalls, create_or_get}
use rc_pangjiahui.Intake.{Repository}

abbrev pub repository : CreateCalls → Repository Db
repository calls = record { create_or_get = λ task event db. create_or_get calls task event db }
