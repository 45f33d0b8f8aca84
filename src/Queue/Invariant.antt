-- ===== src/Queue/Invariant.antt =====
-- The well-formedness of the store, and that the operations keep it: the rows in
-- `Invariant/Rows.antt`, leasing and requeueing, completion and submission in the other children.
pub mod Rows
pub mod Moves
pub mod Finals
pub mod Submits
