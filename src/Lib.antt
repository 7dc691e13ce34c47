-- ===== src/Lib.antt =====
-- A verification library for the SemMachina engine: the parts of the Go program that decide what a
-- turn does, as functions, with the theorems that make them correct.
--
-- A player's action is accepted as a turn; the turn goes through the stages of an interpretation, an
-- adjudication, perhaps a roll of dice, the effects, a companion and a narration, and ends. The graph
-- is the record of all of it: a component writes facts as triples of its own projection group.
--
-- Parts:
--   Vocabulary    internal/vocabulary: the closed sets (classes.go, failures.go, caseflow.go, world.go,
--                 mystery.go, authorization.go, attributes.go), one module each, the predicates
--                 that are written (predicates.go), the phases of a turn (phases.go), the mechanics
--                 and the advice on rolls (resolution.go), the bounds of attributes (attributes.go).
--   Graph         the graph as its clients see it: triples, projection targets
--                 (internal/projectioncontract/contracts.go), identifiers (internal/vocabulary/world.go,
--                 references.go, internal/payload/constants.go, playeraction.go), the store with its
--                 laws (internal/graphio/store.go as documented, with the JSON round trip of objects that
--                 internal/dice/resolver.go documents) and a store in memory that meets them.
--   Payload       internal/payload: projections into triples (triples.go), the turn state and the
--                 player's pointers (turnstate.go, playerturn.go, playerresolvedturn.go), player
--                 actions (playeraction.go), modifiers and roll records (modifier.go, rollresult.go),
--                 effect intents and batches (effect.go, effectbatch.go) and verdicts (verdict.go).
--   Content       internal/content: references and keys (ref.go), the one write and the one read of the
--                 object store (store.go) as `put` and `get` over a backend and a codec, the artifacts
--                 that the stages use, and failure details (failure.go).
--   Turn          internal/turn: the recorder (recorder.go: Accept is `accept`, Advance `advance`, Fail
--                 `fail`, transition `transition` and `settle`, classify `classify`), identities
--                 (identity.go) and faults (errors.go). Lifecycle has the diagram of a turn as a
--                 relation; Durable, Advance, Accepted, Redelivery and Moves say what is in the graph.
--   Dice          internal/dice: a roll from the campaign's seed (roller.go) and at most one for a turn
--                 (resolver.go).
--   Effect        internal/effect: Views, Fold, Plan and Writes are plan.go (buildPlan is `build_plan`,
--                 foldIntent `fold_intent`, foldValue `fold_value`, projections `projections`), Applier
--                 is applier.go (Apply is `apply`), Reasons is errors.go. Steps says what an
--                 application respects; Seen, Entries and Sanctioned what a plan may hold.
--   Stage         internal/stage: the entry of a stage (enter.go), the stage of the dice (resolve.go), that
--                 of the effects (apply.go) and the end (complete.go), over the recorder, the resolver,
--                 the applier and the artifacts.
--   Knowledge     internal/knowledge/authorize.go: AuthorizeWithWitnesses is `authorize_with_witnesses`,
--                 with a function for each kind of decision (internal/payload/casedecision.go) and the
--                 grounds that a grant has.
--   Boot          internal/boot/sequence.go: boot steps with declared prerequisites.
--   Examples      a small world in which the code runs, and the theorems applied to it.
--   Prelude, Exec lists, results, integers, and methods on a shared world that may fail.
--
-- A method of the recorder is a function from a world to a world and a result (Exec): what was
-- written before an error stays written. The world is a parameter, with the graph store, the action
-- store and the clock over it. The rules of entity ids and predicates of the semstreams packages, SHA-256,
-- the generator of math/rand/v2, the storage backend with its codec, the texts of errors, fmt.Sprint of an
-- object, the authorizers of shares and witnesses, and the work of a boot step are parameters too.
--
-- A value of a closed set is a constant or `foreign` with a text; `of_string` makes no `foreign` of a
-- declared text, as a Go string is its text. Go's int is an integer without a bound here: the sums of
-- dice and modifiers that a record may carry are small, and a sum over unchecked modifiers is
-- validated before it is used. Errors keep their kind and not their message. All loops are over
-- lists or a count, so no definition has fuel.
--
-- Not modelled: NATS and JSON, prompts and language models, the rule engine of a dependency, ingress
-- and egress; of the core, the case flow, the companion, the ledger, and of the knowledge of
-- actors all but the authorization of a grant.
-- Concurrency is not modelled: the intake runs one turn at a time.
pub mod Prelude
pub mod Exec
pub mod Vocabulary
pub mod Graph
pub mod Content
pub mod Payload
pub mod Turn
pub mod Dice
pub mod Boot
pub mod Effect
pub mod Stage
pub mod Knowledge
pub mod Examples
