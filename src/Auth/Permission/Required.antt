-- ===== src/Auth/Permission/Required.antt =====
-- `permissionForAction` of packages/auth/src/permissions.ts.
use hootifactory.Auth.Permission.{
  Action, read, write, delete, admin, ResourceType, org, repository, pkg, artifact, policy, token,
  system, PermissionKey, system_admin, token_read, token_rotate, token_revoke, token_create,
  org_read, org_delete, org_update, repository_read, repository_write, repository_delete,
  repository_permission_manage, policy_read, policy_delete, policy_write, package_read,
  package_write, package_delete, artifact_read, artifact_write, artifact_delete,
}

-- The last lines of the source build the key as `prefix.suffix`; only packages and artifacts
-- reach them.
unfoldable pub permission_for_action : Action → ResourceType → PermissionKey
permission_for_action action system = system_admin
permission_for_action read token = token_read
permission_for_action write token = token_rotate
permission_for_action delete token = token_revoke
permission_for_action admin token = token_create
permission_for_action read org = org_read
permission_for_action delete org = org_delete
permission_for_action write org = org_update
permission_for_action admin org = org_update
permission_for_action read repository = repository_read
permission_for_action write repository = repository_write
permission_for_action delete repository = repository_delete
permission_for_action admin repository = repository_permission_manage
permission_for_action read policy = policy_read
permission_for_action delete policy = policy_delete
permission_for_action write policy = policy_write
permission_for_action admin policy = policy_write
permission_for_action read pkg = package_read
permission_for_action write pkg = package_write
permission_for_action delete pkg = package_delete
permission_for_action admin pkg = package_write
permission_for_action read artifact = artifact_read
permission_for_action write artifact = artifact_write
permission_for_action delete artifact = artifact_delete
permission_for_action admin artifact = artifact_write
