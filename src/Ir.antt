-- ===== src/Ir.antt =====
-- The intermediate representation of a graph: the models that the runtime reads
-- (src/stargraph/ir/_models.py), the ids of their parts, and the validation of a document.
pub mod Actions
pub mod Nodes
pub mod Ids
pub mod When
pub mod Versioning
pub mod Validate
