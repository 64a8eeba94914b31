-- ===== src/Lib.antt =====
-- noidear, a quality and production management system: a model of the material flow of its server,
-- of its approval engine, and of training, product changes and references between documents.
--
-- The parts, and the files of server/src/modules that they model:
--
-- - Base: numbers, integers, rows and actions. A service method is an action on the database: it
--   returns or throws, and what it wrote before it threw stays unless a `$transaction` rolls it
--   back.
-- - Access: module-access/ownership-context.ts and ownership-helpers.ts, which production batches a
--   caller sees.
-- - Approval: unified-approval. Types and Db are the tables; Resolver, Todos, Metadata, Callbacks
--   and Text the parts that the engine uses; Steps, Cases and Engine approval-engine.service.ts.
--   Engine.Service gives the engine as the interface `Approvals` (in Approval.Types), by which the
--   warehouse services start approvals.
-- - Warehouse: warehouse. Model and Store are the tables; Suppliers, Ledger and Stocks the
--   statements that the services share; Requisition is requisition.service.ts; Slips is
--   services/return.service.ts and services/scrap.service.ts, which are one program over two
--   tables; Batches is batch.service.ts; Balance is material-balance.service.ts. Measures, Effect,
--   Statements, Flow and Books say what the statements do to the sums of a batch.
-- - Plant: Usage is batch-trace/services/material-usage.service.ts; Staging and Counting are
--   warehouse/staging-area.service.ts; Recommend, MixingChecks and Mixing are
--   mixing/mixing.service.ts, with `createFromMixingLine` of
--   batch-trace/services/batch-material-usage.service.ts, whose `create` is in
--   Plant.Usage.BatchMaterialUsage.
-- - Training: training. Plans and Projects are training.service.ts with the callbacks of
--   training.module.ts; Exam is exam.service.ts. Enrolled says what the operations do to who has a
--   learning record, Lifecycle puts them in sequence.
-- - ProcessChange: product-process-change and, of change-event, what it uses. Validate and Apply
--   are the checks and the application of an approved change in product-process-change.service.ts,
--   Service its other operations with the callbacks of change-event.module.ts. Frame, Unwritten,
--   Parts, Outcome, Versions, Stuck, Final, Forever and Blocked say what becomes of a change,
--   Lifecycle puts the calls in sequence.
-- - Document: `createReference` of document/services/document-reference.service.ts. Search,
--   Acyclic, Separates, Added, Decides and Creates are about circles, Depth about the limit on the
--   depth.
--
-- How they interact: a requisition moves material from the warehouse to the staging areas; a return
-- moves it back, a scrap destroys it, a mixing execution consumes it there; each service writes
-- stock records and ledger rows, from which the balance report is computed. The warehouse
-- documents, training plans and product changes start approvals, and the engine calls the business
-- modules back through registered callbacks, inside its transaction.
--
-- Conventions. An id is a number, and a primary key is drawn from `next_id`. A quantity is an
-- integer number of millionths: the rounding of floating-point numbers is not modelled, and the
-- tolerances 0.01 and 0.0001 are 10000 and 100. An exception carries its text without interpolated
-- values. The current time, a random or derived document number and the row order are arguments or
-- the order of the table: `findFirst` without an order returns the first row. `$transaction` rolls
-- the database back; the notification service does not write through the transaction, so what the
-- approval engine has sent stays; nor does every callback, so what stays of a callback's writes
-- when a decision throws is a parameter, `Env.undo`. The writes by which a failed application of a
-- change is recorded, each in a `try` of its own, do not fail: nothing in the tables that are
-- modelled refuses them. A unique index or a foreign key between tables that are modelled refuses a
-- row with an `internal` error. An empty id or code is `none`. Included relations are looked up
-- where they are used. Loops are structural recursion on the lists that the source walks; fuel is
-- the three attempts of `createExecution`, the source's own bound, and the rounds of the search for
-- circular references, one for each reference and one more, which is proved enough.
--
-- Not modelled: queries that only read, the controllers and the validation of their input, the
-- client, concurrent transactions, and the other modules of the server.
pub mod Base
pub mod Access
pub mod Approval
pub mod Warehouse
pub mod Plant
pub mod Training
pub mod ProcessChange
pub mod Document
