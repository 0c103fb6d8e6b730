-- ===== src/Access.antt =====
-- Who may do what: delegations of a wallet (`Access.Delegations`, api/src/lib/delegation.ts) and the
-- capabilities of a member (`Access.Permissions`, api/src/lib/permissions.ts).
pub mod Delegations
pub mod Revoked
pub mod Permissions
pub mod Effective
mod Examples
