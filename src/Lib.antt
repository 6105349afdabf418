-- ===== src/Lib.antt =====
-- SchemaForge, a server that turns schema definitions into database tables, a typed API and policies.
-- This library models its core in cubical type theory, with theorems about it.
--
-- A schema text is parsed into schema definitions (crates/schema-forge-core/src/types), collection
-- relations are paired with the foreign keys that point back (inverse_relations.rs), the stored version of
-- a schema is compared with the new one into a migration plan (migration.rs), and requests become queries
-- whose filters are validated against the schema (query.rs). The schema text is read by
-- crates/schema-forge-dsl.
--
-- Prelude: the shared names, Boolean tests, `Result`, loops over lists, integers over the native numbers.
-- Core: the types. Names (field_name.rs, schema_name.rs, cedar_reserved.rs), Tokens (the vocabularies of
-- field_annotation.rs, annotation.rs and file_constraints.rs), Constraints, FieldType, Annotation, Schema
-- (field_definition.rs, schema_definition.rs), Value (dynamic_value.rs), Error (error.rs), Inverse
-- (inverse_relations.rs). A Rust newtype over a text is its text; a `HashSet` that a loop fills is the list
-- of what it has seen; a `BTreeMap` is a list in key order or, for hooks, a function on the events.
-- Migration: Step, Plan and Diff model migration.rs, one function for each method and loop body; a method
-- that pushes onto a shared vector returns the list of what it pushes. Effect says what each step asks
-- of the columns of a table, apart from the code and as PostgreSQL's ALTER statements do it: a step on a column
-- that is absent breaks; SurrealDB's statements, which overwrite a field's definition, are another matter.
-- Stages follows a plan through its stages, Refines,
-- Marks, Presence, Identity, Safety, Protection, Hooks and Gaps are about whole plans.
-- Query: Path, Filter and Request model query.rs; Good says what a filter has to be, Validate relates it
-- to the code.
-- Dsl: Token, Error, Literals, Cursor, Params, Types, Fields, Annotations and Parse model
-- crates/schema-forge-dsl/src/parser.rs with token.rs and error.rs. A production is a function on the tokens
-- that are left (Outcome), which stand for the source's vector and position; the place that `current_span`
-- points at behind the last token is an argument. A `match` on a keyword's text is a look-up of the
-- keyword and a function by clauses on it. The `logos` lexer is not modelled: the tokens are arguments.
-- Cursor/Total says when a run ends, Good what a schema has to be, and Good/Accepted relates the two for a
-- whole file. Printer, with Decimal for the numbers, models crates/schema-forge-dsl/src/printer.rs: a printing
-- function gives the words and the blanks that it pushes onto the text, each word with the token that the
-- lexer has for it; `float_token` says what is done for the text of a float that is not one word. RoundTrip/Files is about reading printed schemas back, RoundTrip/Lossy about what comes
-- back changed; the other modules of RoundTrip read one production each.
-- Tenant: Config and Build model crates/schema-forge-backend/src/tenant.rs, which builds the hierarchy of
-- tenants. Loops and Total are about its termination, Order about the order of the levels, Placed,
-- Complete, Coverage and Hierarchy about which schemas have one; Pigeonhole is a lemma on lists.
-- Access: Ranks models authz/role_ranks.rs, Check, Fields and Scope model access.rs
-- (crates/schema-forge-acton/src) over Engine, a record of what they call: the policy engine, the claims of
-- the web framework, and the entities of crates/schema-forge-backend/src/entity.rs, whose `strip_hidden`
-- Hidden models. Scope/Isolation is about what a scoped query finds in a database that means by a filter
-- what it says.
-- Claims: Json, Projection, Config and Extract model authz/principal_claims.rs of
-- crates/schema-forge-acton/src, which turns fields of the user into claims of a token and these into
-- attributes of the principal. Built is about the values that become attributes, Accepted about both ends.
--
-- All recursion is structural, but for the loops and the nesting of the DSL's productions, which run on as
-- much fuel as there are tokens left, and one more, since each round takes a token, and for the two `while`
-- loops of the tenant hierarchy, which run on fuel:
-- the walk up the parents on as many steps as there are levels, since the names it has visited are different
-- and all of levels, and the placing loop on as many passes as there are children, since each pass but the
-- last places one. An integer of the source that only is compared is an unbounded one, since no
-- operation on it can overflow; the literals that the DSL reads have the bounds of their types. A panic is
-- `none`. Floats, timestamps and JSON values are parameters in the values of entities (`Externals` of
-- Core/Value), since no operation modelled looks into them; the JSON values of claims are those of
-- Claims/Json, and the expressions of Cedar that they become are a parameter. The parser of
-- the TOML package is a function argument.
--
-- Not modelled: Display and serde texts, the DSL's lexer, the database backends,
-- the web server, the generation of policies and the command line.
pub mod Prelude
pub mod Core
pub mod Migration
pub mod Query
pub mod Dsl
pub mod Tenant
pub mod Access
pub mod Claims
