-- ===== src/Projections/Worker/Resumed.antt =====
-- `run` of projections/worker.py of packages/advanced/src/cqrs_ddd_advanced_core, called again after
-- it returned or raised, on a store that has grown.
use cqrs_ddd.Common.{List, Option}
use cqrs_ddd.Projections.Worker.{Worker}
use cqrs_ddd.Common.Outcome.{Outcome}
