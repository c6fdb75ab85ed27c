-- ===== src/Rbac.antt =====
-- Who may do what, and which rows a request reaches: common/rbac, common/guards and
-- infrastructure/prisma/tenant.
pub mod Permissions
pub mod Where
pub mod Scope
pub mod Context
pub mod Tenant
pub mod Confinement
