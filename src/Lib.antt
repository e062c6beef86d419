-- ===== src/Lib.antt =====
-- Verification of contextGate's administration interface: the decisions that the TypeScript program
-- under web/src takes about business concepts, query publishing, client calls and the ontology graph.
-- The Go gateway (cmd, internal) serves the data that these parts read and is not modelled.
--
-- An administrator maps a source's tables to an ontology, writes a query template, publishes it and
-- waits for an agent's client to call it. Each part reads the server's answers, keeps a little state
-- of its own (browser storage, a hook, a gesture) and decides what is shown or written next. Files:
--
-- Base and below: lists, texts, sets, the integers, Boolean tests and results that the parts share.
-- Json: the values of JSON.parse.
-- Ontology (web/src/ontology-types.ts): an ontology, a source's binding to it, conceptRefs as
-- `concept_refs`, effectiveEntities as `effective_entities`.
-- Semantics (web/src/semantic-types.ts) and Types (web/src/types.ts): the server's records.
-- Concepts (web/src/query-concepts.ts): mappedConcepts, conceptQueries, linkQueryConcept and
-- coverageLabel, each under its name in snake_case; it reads the ontology and the snapshot.
-- Readiness (web/src/readiness.ts): readinessLabel, connectionReady; Readiness/Hook is useReadiness, a
-- step function on renders, refreshes and answers, with `shown` for the data it returns.
-- Publishing (web/src/query-publishing.ts): the journeys of savedJourneys and rememberJourney over a
-- `Storage`, sameQueryEntry and queryNextStep, which reads the state of the semantics and readiness.
-- ClientCall (web/src/client-call.ts): waitForClientCall over the rounds that the browser brings.
-- Layout (web/src/ontology-graph-layout.ts): arrangeEntities, readPositions, entityPositions and
-- arrowDelta, and boundedPoint of web/src/OntologyGraph.tsx.
-- Graph (web/src/OntologyGraph.tsx): the handlers begin, move, end (`release`), cancelGesture,
-- connectTo and persist, as functions from the component's state to the next; the parent's callbacks
-- are the list `sent`, and a render recomputes the positions by `entity_positions`.
-- Samples: the values that the Tests modules run the definitions on.
-- Translation (web/src/i18n.ts): the language of the pages that share a storage, and translate. Parameters/Form
-- (web/src/TemplateParameters.tsx): the values that the form of the parameters shows and stores;
-- its update is `update_value` of Draft.
-- Publishing/History: the calls of rememberJourney in sequence, and their unbounded history.
-- Draft (web/src/query-publishing.ts, http-template.ts, query.ts, semantic-types.ts): nativeTemplateQuery,
-- suggestedParameters, httpTemplate and the payloads; Draft/Page (web/src/QueryDraftEditor.tsx) is the
-- editor of a draft, one event after another: `save`, `change_parameter` and `find_parameters` go as far
-- as their requests, and `draft_answered` on from there. Its fields are edited by the event `edited`.
-- JsonText: JavaScript's JSON.parse on texts, and JSON.stringify of a string. Parameters
-- (web/src/template-parameters.ts): parts cuts a text at its top commas, parameterValues and
-- parameterJSON read and write an object as a list of names and the texts of their values; Numbers is
-- decimal and compare, Equality is equalJSON, Check is parameterError and validateParameters.
-- Navigation (web/src/useNavigationGuard.ts): the guards of the mounted hooks, and canNavigate.
-- Api (web/src/api.ts): the outcome of a request for each response. SourceChange
-- (web/src/SourceChangeImpact.tsx): whether an edited source changes its connection or access.
-- Editor (web/src/OntologyEditor.tsx): newOntologyItem, and suggestedID over the JavaScript functions
-- that normalise a name; Editor/Form is the form of an item, one event after another.
-- Evaluation (web/src/evaluation-types.ts) and Evaluation/Page (web/src/QueryEvaluation.tsx): the page on
-- which a question is saved, captured and reviewed, one event after another; a request to the server
-- is one step and its reply another.
--
-- Modelling. A JavaScript string is the list of its UTF-16 code units (`Text`). An optional member is
-- an Option, a union of string literals its text or a data type, a count a natural number. A thrown
-- error is a value. An object used as a map is the list of its entries. Storage keeps what a text
-- parses to: JSON.parse of JSON.stringify gives back the value, for the values stored here. The
-- comparison of two JSON texts (sameQueryEntry, SourceChangeImpact, the configurations of an
-- evaluation) is equality of the values: an object used as a dictionary is compared in its order, and
-- the server writes the members of every record in one order.
--
-- Bounds and fuel. The loop of effectiveEntities runs on the number of entity types and two: its
-- members are distinct, and all but the last are defined. The square root of arrangeEntities is
-- searched from nought with the number of nodes as fuel, and is at most that. waitForClientCall is a
-- recursion on the rounds. The loop of suggestedID runs on the number of used ids: what it has tried
-- are that many different ones. JSON.parse is read on twice the length of the text and two
-- more as fuel (JsonText/Enough). equalJSON runs on one more than the length of the first text, since the parts of a
-- text are shorter than it. Coordinates are integers: a drag divides by the zoom, which is the
-- argument `shrink`, any function here.
--
-- Not modelled: fitGraph and edgeRoute, whose results are fractions; the markup of the components;
-- the URL builders, which only call URLSearchParams; the timers and abort signals of the browser,
-- which the rounds and events stand for.
pub mod Base
pub mod Json
pub mod Ontology
pub mod Semantics
pub mod Types
pub mod Samples
pub mod Api
pub mod ClientCall
pub mod Concepts
pub mod Draft
pub mod Editor
pub mod Evaluation
pub mod Graph
pub mod JsonText
pub mod Layout
pub mod Navigation
pub mod Parameters
pub mod Publishing
pub mod Readiness
pub mod SourceChange
pub mod Translation
