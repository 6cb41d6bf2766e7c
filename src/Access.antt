-- ===== src/Access.antt =====
-- Roles, users and what they may do: backend/app/models/role.py and user.py, backend/app/crud/user.py
-- and backend/app/api/v1/users.py.
pub mod Roles
pub mod Users
pub mod Endpoints
pub mod Grants
pub mod Outcomes
pub mod Escalation
pub mod Accounts
pub mod Union
pub mod RoleRoutes
pub mod SystemRoles
