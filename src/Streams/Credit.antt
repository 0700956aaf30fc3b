-- ===== src/Streams/Credit.antt =====
-- packages/webrun-streams/src/flow-control.ts: the sender's ledger and the receiver's grantor. A
-- promise is named by the ticket of the `reserve` call that made it; an operation returns, beside
-- the new state, the promises that it settles, in the order in which it settles them.
pub mod Ledger
pub mod Grantor
